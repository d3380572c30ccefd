-- ===== src/Sync/Release.antt =====
-- `lock_release` and `sema_up`.
use lutf.Base.{
  ℕ, ◌+◌, ◌-◌, ◌<◌, ◌≡◌, ◌≢◌, refl, List, [], ◌∷◌, arith, ok, spin, ◌==◌, ltb, ne→==_false, ==_self,
  true, false, Returns, returns, Returns-eq, mono, length, and_then, ◌∙◌, ap, Apart, ◌>>◌,
}
use lutf.Lists.{Ptr, null, Links, list_pop, list_empty}
use lutf.Store.{Store, Lock, task_ready, general_tag, elem2entry, general_tag_offset}
use lutf.Store.Access.{get_lock, modify_lock, put_lock, interrupt_disable, interrupt_enable}
use lutf.Tasks.{task_unblock, is_parked}
use lutf.Tasks.Queue.{IsQueue, IsReady, IsQueue-empty, IsQueue-pop, IsQueue-Distinct}
use lutf.Tasks.Park.{task_unblock-Woken}
use lutf.Sync.{sema_up, sema_wake, sema_raise, lock_release}
use lutf.Sync.Waiters.{IsLockAddress, IsQueue-spared, IsQueue-spared_insert, Apart-sym, Apart-cons}
use lutf.Sync.Acquire.{free_lock, held, LockSet}

-- The last `lock_release` by the holder, with no waiters, frees the lock and lets SIGALRM through;
-- nothing else changes.
pub lock_release_free :
    (rounds : ℕ) (s : Store) (p : Ptr)
    → IsQueue s.links p []
    → p ≢ null
    → s.lock p ≡ held s.current_task 1
    → Returns (λ _ s'. LockSet s p free_lock s' × (s'.unmasked ≡ true)) (lock_release rounds p s)
unfolding lock_release sema_up sema_wake sema_raise get_lock modify_lock interrupt_disable
    interrupt_enable
lock_release_free rounds s p wait hp l =
    let own : (s.current_task == s.current_task) ≡ true = ground arith in
    simp (ne→==_false p null hp, ==_self, l, IsQueue-empty [] wait)
      (returns
        (record { lock = ground arith; other_locks = λ q ne. ground arith; rest = refl }, refl))

-- `lock_release` by a task that holds the lock more than once counts one down, and nothing else
-- changes.
pub lock_release_nested :
    (rounds : ℕ) (s : Store) (p : Ptr) (n : ℕ)
    → p ≢ null
    → s.lock p ≡ held s.current_task (n + 2)
    → Returns
        (λ _ s'. LockSet s p (held s.current_task (n + 1)) s' × (s'.unmasked ≡ s.unmasked))
        (lock_release rounds p s)
unfolding lock_release get_lock modify_lock
lock_release_nested rounds s p n hp l =
    let own : (s.current_task == s.current_task) ≡ true = ground arith in
    let more : ltb 1 (n + 2) ≡ true = ground arith in
    let one : n + 2 - 1 ≡ n + 1 = omega arith in
    simp (ne→==_false p null hp, own, l, more, one)
      (returns
        (record { lock = ground arith; other_locks = λ q ne. ground arith; rest = refl }, refl))

-- A task that does not hold the lock stops at the assertion.
pub lock_release_refused :
    (rounds : ℕ) (s : Store) (p : Ptr)
    → p ≢ null
    → (s.lock p).holder ≢ s.current_task
    → lock_release rounds p s ≡ spin s
unfolding lock_release get_lock
lock_release_refused rounds s p hp other =
    let not_own : ((s.lock p).holder == s.current_task) ≡ false = ground arith in
    rw (ne→==_false p null hp, not_own) refl

-- What waking the first waiter leaves before the value is raised.
pub record Handed (s : Store) (p w : Ptr) (ws ts : List Ptr) (s' : Store) : Type 0 where
  pub ready : IsReady s'.links (w ∷ ts)
  pub waiting : IsQueue s'.links p ws
  pub woken : s'.task w ≡ record (s.task w) { status = task_ready }
  pub others : (q : Ptr) → q ≢ w → s'.task q ≡ s.task q
  pub lock : s'.lock ≡ s.lock
  pub current : s'.current_task ≡ s.current_task
  pub cpu : s'.cpu ≡ s.cpu
  pub unmasked : s'.unmasked ≡ true

sema_up-eq :
    (rounds : ℕ) (s : Store) (p w : Ptr) (m : Links)
    → p ≢ null
    → (s.lock p).value ≡ 0
    → list_empty p s.links ≡ ok false s.links
    → list_pop p s.links ≡ ok (general_tag w) m
    → sema_up rounds p s
      ≡ (task_unblock rounds w >> sema_raise p) (record s { links = m; unmasked = false })
unfolding sema_up sema_wake get_lock interrupt_disable
sema_up-eq rounds s p w m hp v more pop =
    let entry : elem2entry general_tag_offset (general_tag w) ≡ w = omega arith in
    rw (ne→==_false p null hp, v, more, pop, entry) refl

pub sema_up-Handed :
    (rounds : ℕ) (s : Store) (p w : Ptr) (ws ts : List Ptr)
    → IsLockAddress p
    → (s.lock p).value ≡ 0
    → IsQueue s.links p (w ∷ ws)
    → IsReady s.links ts
    → Apart ts (w ∷ ws)
    → is_parked (s.task w).status ≡ true
    → length ts < rounds
    → (s₁ : Store) × (sema_up rounds p s ≡ sema_raise p s₁) × Handed s p w ws ts s₁
sema_up-Handed rounds s p w ws ts place v wait ready apart parked lt =
    let (m, pop, wait', same) = IsQueue-pop w ws wait in
    let ready' = IsQueue-spared ts (w ∷ ws) ready place.1 wait.tasks (omega arith) apart same in
    let apart' = Apart-sym ts (w ∷ ws) apart in
    let out = apart' w (ground arith) in
    let (_, s₁, eq, k) = Returns-eq (
      task_unblock-Woken rounds (record s { links = m; unmasked = false }) w ts ready' wait.tasks.0
        out parked lt) in
    (
      s₁,
      sema_up-eq rounds s p w m (omega arith) v (IsQueue-empty (w ∷ ws) wait) pop
          ∙ ap (λ r. and_then r (λ _. sema_raise p)) eq,
      record {
        ready = k.ready;
        waiting =
            IsQueue-spared_insert ws ts w wait' (omega arith) ready.tasks wait.tasks.0 (omega arith)
              (Apart-cons ws ts w (λ a i. apart' a (ground arith)) (IsQueue-Distinct w ws wait))
              k.spared;
        woken = k.woken;
        others = k.others;
        lock = k.globals.lock;
        current = k.current;
        cpu = k.cpu;
        unmasked = k.unmasked;
      },
    )

pub sema_raise-LockSet :
    (s : Store) (p : Ptr)
    → p ≢ null
    → (s.lock p).value ≡ 0
    → Returns
        (λ _ s'. LockSet s p (record (s.lock p) { value = 1 }) s' × (s'.unmasked ≡ true))
        (sema_raise p s)
unfolding sema_raise get_lock modify_lock interrupt_enable
sema_raise-LockSet s p hp v =
    simp (ne→==_false p null hp, v, ==_self)
      (returns
        (record { lock = ground arith; other_locks = λ q ne. ground arith; rest = refl }, refl))

-- the store in which the holder has given the lock up, and has not raised the semaphore
abbrev given_up : Store → Ptr → Store
given_up s p =
    let one = put_lock s p (record (s.lock p) { holder = null }) in
    put_lock one p (record (one.lock p) { holder_repeat_nr = 0 })

given_up-lock :
    (s : Store) (p : Ptr)
    → s.lock p ≡ held s.current_task 1
    → (given_up s p).lock p ≡ record { holder = null; value = 0; holder_repeat_nr = 0 }
given_up-lock s p l = ground arith

lock_release-eq :
    (rounds : ℕ) (s : Store) (p : Ptr)
    → p ≢ null
    → s.lock p ≡ held s.current_task 1
    → lock_release rounds p s ≡ sema_up rounds p (given_up s p)
unfolding lock_release get_lock modify_lock
lock_release-eq rounds s p hp l = simp (ne→==_false p null hp, l, ==_self)

-- The last `lock_release` by the holder wakes the task that has waited longest, if the waiters are
-- parked and not ready: it becomes ready, in front of the other ready tasks, and leaves the waiters;
-- the lock is free for whoever asks first, the same task runs, and SIGALRM is let through.
pub lock_release_wakes :
    (rounds : ℕ) (s : Store) (p w : Ptr) (ws ts : List Ptr)
    → IsLockAddress p
    → s.lock p ≡ held s.current_task 1
    → IsQueue s.links p (w ∷ ws)
    → IsReady s.links ts
    → Apart ts (w ∷ ws)
    → is_parked (s.task w).status ≡ true
    → length ts < rounds
    → Returns
        (λ _ s'.
          (s'.lock p ≡ free_lock)
          × IsReady s'.links (w ∷ ts)
          × IsQueue s'.links p ws
          × ((s'.task w).status ≡ task_ready)
          × (s'.current_task ≡ s.current_task)
          × (s'.unmasked ≡ true))
        (lock_release rounds p s)
lock_release_wakes rounds s p w ws ts place l wait ready apart parked lt =
    let g = given_up-lock s p l in
    let (s₁, eq, k) =
      sema_up-Handed rounds (given_up s p) p w ws ts place (ap (λ r. r.value) g) wait ready apart
        parked lt in
    let v : s₁.lock p ≡ record { holder = null; value = 0; holder_repeat_nr = 0 } =
      ap (λ (f : Ptr → Lock). f p) k.lock ∙ g in
    rw (lock_release-eq rounds s p (omega arith) l, eq)
      (mono (sema_raise-LockSet s₁ p (omega arith) (ap (λ r. r.value) v)) λ _ s' (set, mask). (
        set.lock ∙ ap (λ (r : Lock). record r { value = 1 }) v,
        rw (set.rest) k.ready,
        rw (set.rest) k.waiting,
        ap (λ r. r.status) (ap (λ (x : Store). x.task w) set.rest ∙ k.woken),
        ap (λ (x : Store). x.current_task) set.rest ∙ k.current,
        mask,
      ))
