-- ===== src/Sync/Idle.antt =====
-- Taking and giving back a lock that is not in use.
use lutf.Base.{ℕ, ◌≡◌, refl, ◌≢◌, true, [], ok, Returns-eq, ◌∙◌, ap}
use lutf.Lists.{Ptr, null}
use lutf.Store.{Store}
use lutf.Sync.{lock_acquire, lock_release}
use lutf.Sync.Acquire.{free_lock, LockSet, lock_acquire_free}
use lutf.Sync.Release.{lock_release_free}
use lutf.Tasks.Queue.{IsQueue}

-- A lock that is free and that nobody waits for can be taken and given back.
pub record IsIdle (s : Store) (p : Ptr) : Type 0 where
  pub free : s.lock p ≡ free_lock
  pub nobody : IsQueue s.links p []
  pub not_null : p ≢ null
  pub running : s.current_task ≢ null

pub taken_and_given :
    (rounds : ℕ) (s : Store) (p : Ptr)
    → IsIdle s p
    → (s₁ : Store) × (s₂ : Store) × (lock_acquire rounds p s ≡ ok tt s₁)
      × (lock_release rounds p s₁ ≡ ok tt s₂)
      × LockSet s p free_lock s₂
      × (s₂.unmasked ≡ true)
taken_and_given rounds s p h =
    let (_, s₁, eq, (set, mask)) =
      Returns-eq (lock_acquire_free rounds s p h.not_null h.running h.free) in
    let current : s₁.current_task ≡ s.current_task = ap (λ (x : Store). x.current_task) set.rest in
    let links : s₁.links ≡ s.links = ap (λ (x : Store). x.links) set.rest in
    let (_, s₂, eq₂, (set₂, mask₂)) = Returns-eq (
      lock_release_free rounds s₁ p (rw links h.nobody) h.not_null (rw (set.lock, current) refl)) in
    (
      s₁,
      s₂,
      eq,
      eq₂,
      record {
        lock = set₂.lock;
        other_locks = λ q ne. set₂.other_locks q ne ∙ set.other_locks q ne;
        rest =
            set₂.rest
            ∙ ap (λ (x : Store). record x { lock = s₂.lock; unmasked = s₂.unmasked }) set.rest;
      },
      mask₂,
    )
