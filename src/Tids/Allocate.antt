-- ===== src/Tids/Allocate.antt =====
-- A tid is taken and given back: what becomes of the bits of the bitmap.
use lutf.Base.{
  sym, Bool-cases, ==_iff, inl, inr, ℕ, ◌+◌, ◌%◌, ◌^◌, ◌≡◌, refl, ◌≢◌, ◌==◌, Bool, true,
  if◌then◌else◌, [], arith, Returns, returns, bind, mono, ap, ◌∙◌, Returns-eq,
}
use lutf.Base.Int.{to_int16}
use lutf.Bitmap.{Bitmap}
use lutf.Bitmap.Bits.{bit, IsBitmap}
use lutf.Bitmap.Update.{HasBits, bitmap_set-bit}
use lutf.Bitmap.Scan.{FirstClear, bitmap_scan-first}
use lutf.Lists.{null}
use lutf.Store.{Store, tid_lock}
use lutf.Store.Access.{set_bitmap}
use lutf.Sync.{lock_release}
use lutf.Sync.Acquire.{free_lock, held, LockSet, lock_acquire_free}
use lutf.Sync.Release.{lock_release_free}
use lutf.Tasks.Queue.{IsQueue}
use lutf.Tids.{allocate_tid}

-- The lock of the tids is free and nobody waits for it.
pub record Idle (s : Store) : Type 0 where
  pub free : s.lock tid_lock ≡ free_lock
  pub nobody : IsQueue s.links tid_lock []
  pub running : s.current_task ≢ null

-- `s'` differs from `s` in the bits of the tids, which `f` gives; SIGALRM is let through.
pub record Marked (s : Store) (f : ℕ → Bool) (s' : Store) : Type 0 where
  pub bits : HasBits s.tid_bitmap f s'.tid_bitmap
  pub idle : Idle s'
  pub rest : s' ≡ record s { tid_bitmap = s'.tid_bitmap; lock = s'.lock; unmasked = true }
  pub locks : (q : ℕ) → s'.lock q ≡ s.lock q

-- two changes one after the other
pub Marked-trans :
    {s s₁ s₂ : Store} {f g : ℕ → Bool} → Marked s f s₁ → Marked s₁ g s₂ → Marked s g s₂
Marked-trans {s} {s₁} {s₂} m k = record {
  bits = record {
    valid = k.bits.valid;
    same_len = k.bits.same_len ∙ m.bits.same_len;
    same_size = k.bits.same_size ∙ m.bits.same_size;
    bits = k.bits.bits;
  };
  idle = k.idle;
  rest =
      k.rest
      ∙ ap (λ (x : Store). record x { tid_bitmap = s₂.tid_bitmap; lock = s₂.lock; unmasked = true })
          m.rest;
  locks = λ q. k.locks q ∙ m.locks q;
}

-- the same bits, said otherwise
pub Marked-same :
    {s s₁ : Store} {f g : ℕ → Bool} → ((j : ℕ) → f j ≡ g j) → Marked s f s₁ → Marked s g s₁
Marked-same same m = record {
  bits = record {
    valid = m.bits.valid;
    same_len = m.bits.same_len;
    same_size = m.bits.same_size;
    bits = λ j. m.bits.bits j ∙ same j;
  };
  idle = m.idle;
  rest = m.rest;
  locks = m.locks;
}

-- the end of the critical section, with the bitmap `b`
pub unlock-Marked :
    (rounds : ℕ) (s s₁ : Store) (b : Bitmap) (f : ℕ → Bool)
    → Idle s
    → HasBits s.tid_bitmap f b
    → LockSet s tid_lock (held s.current_task 1) s₁
    → Returns (λ _. Marked s f) (lock_release rounds tid_lock (set_bitmap b s₁))
unlock-Marked rounds s s₁ b f h bits set =
    let current : s₁.current_task ≡ s.current_task = ap (λ (x : Store). x.current_task) set.rest in
    let links : s₁.links ≡ s.links = ap (λ (x : Store). x.links) set.rest in
    mono
      (lock_release_free rounds (set_bitmap b s₁) tid_lock (rw links h.nobody) (omega arith)
        (rw (set.lock, current) refl))
      λ _ s' (again, mask).
        let kept : s' ≡ record s { tid_bitmap = b; lock = s'.lock; unmasked = true } =
          again.rest
          ∙ ap (λ (x : Store). record x { tid_bitmap = b; lock = s'.lock; unmasked = s'.unmasked })
              set.rest
          ∙ ap (λ u. record s { tid_bitmap = b; lock = s'.lock; unmasked = u }) mask in
        let bitmap : s'.tid_bitmap ≡ b = ap (λ (x : Store). x.tid_bitmap) kept in
        record {
          bits = rw bitmap bits;
          idle = record {
            free = again.lock;
            nobody = rw (ap (λ (x : Store). x.links) kept) h.nobody;
            running = rw (ap (λ (x : Store). x.current_task) kept) h.running;
          };
          rest =
              kept
              ∙ ap (λ m. record s { tid_bitmap = m; lock = s'.lock; unmasked = true }) (sym bitmap);
          locks = λ q. elim (Bool-cases (q == tid_lock)) [
            | inl e ↦ rw ((==_iff q tid_lock).0 e) (again.lock ∙ sym h.free)
            | inr e ↦ again.other_locks q (ground arith) ∙ set.other_locks q (ground arith)
          ];
        }

-- With a clear bit in the bitmap, `allocate_tid` returns the tid of the first one, cut to 16 bits, and
-- sets that bit and no other; the lock of the tids is free again, SIGALRM is let through, and nothing
-- else changes. The lock is free before, and nobody waits for it.
pub allocate_tid-Marked :
    (rounds : ℕ) (s : Store) (n : ℕ)
    → Idle s
    → IsBitmap s.tid_bitmap
    → FirstClear s.tid_bitmap n
    → Returns
        (λ tid s'.
          (tid ≡ to_int16 (n + s.tid_start))
          × Marked s (λ j. if n == j then true else bit s.tid_bitmap.bits j) s')
        (allocate_tid rounds s)
unfolding allocate_tid
allocate_tid-Marked rounds s n h hb first =
    let (_, s₁, eq, set) =
      Returns-eq (lock_acquire_free rounds s tid_lock (omega arith) h.running h.free) in
    let same : s₁.tid_bitmap ≡ s.tid_bitmap = ap (λ (x : Store). x.tid_bitmap) set.0.rest in
    let start : s₁.tid_start ≡ s.tid_start = ap (λ (x : Store). x.tid_start) set.0.rest in
    let (_, b, put, bits) =
      Returns-eq (
        bitmap_set-bit s.tid_bitmap n 1 hb (omega (arith, first.within, hb.holds)) (omega arith)) in
    let small : n % 2 ^ 32 ≡ n = omega (arith, first.within, hb.small) in
    rw (eq, same, bitmap_scan-first s.tid_bitmap n hb first, small, put)
      (bind (unlock-Marked rounds s s₁ b _ h bits set.0)
        λ _ s' m. returns (ap (λ (x : Store). to_int16 (n + x.tid_start)) m.rest, m))
