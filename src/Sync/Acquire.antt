-- ===== src/Sync/Acquire.antt =====
-- `lock_acquire`: on a free lock, by its holder, and by another task.
use lutf.Base.{
  ℕ, ◌+◌, ◌%◌, ◌^◌, ◌<◌, ◌≡◌, ◌≢◌, refl, List, [], ◌∷◌, ◌++◌, arith, ok, ◌∉◌, ◌==◌, ne→==_false,
  ==_self, true, false, Returns, returns, length, Apart,
}
use lutf.Lists.{Ptr, null, Links, list_append, elem_find}
use lutf.Store.{Store, Lock, task_blocked, general_tag}
use lutf.Store.Access.{get_lock, modify_lock, put_lock, interrupt_disable, interrupt_enable}
use lutf.Tasks.{task_block}
use lutf.Tasks.Queue.{IsTask, IsQueue, IsReady, IsQueue-find, IsQueue-append}
use lutf.Tasks.Switch.{Switched}
use lutf.Tasks.Park.{HandsOver, HandsOver-mono, HandsOver-bind, blocked, task_block-Switched}
use lutf.Sync.{sema_wait, sema_down_loop, sema_down, lock_take, lock_acquire}
use lutf.Sync.Waiters.{IsLockAddress, IsQueue-spared, IsQueue-spared_insert, Apart-cons, Apart-snoc}

-- a lock that nobody holds, and one that `c` holds `n` times
abbrev pub free_lock : Lock
free_lock = record { holder = null; value = 1; holder_repeat_nr = 0 }

abbrev pub held : Ptr → ℕ → Lock
held c n = record { holder = c; value = 0; holder_repeat_nr = n }

-- The lock at `p` is now `l`; other locks and the rest of the store are as before, but for the
-- signal mask, which is `mask`.
pub record LockSet (s : Store) (p : Ptr) (l : Lock) (s' : Store) : Type 0 where
  pub lock : s'.lock p ≡ l
  pub other_locks : (q : Ptr) → q ≢ p → s'.lock q ≡ s.lock q
  pub rest : s' ≡ record s { lock = s'.lock; unmasked = s'.unmasked }

module _ (rounds : ℕ) (s : Store) (p : Ptr) (hp : p ≢ null) where
  sema_down_loop-eq :
      (s.lock p).value ≡ 1
      → sema_down_loop rounds p s
        ≡ ok tt (record (put_lock s p (record (s.lock p) { value = 0 })) { unmasked = true })
  unfolding sema_down_loop get_lock modify_lock interrupt_enable
  sema_down_loop-eq v = simp (ne→==_false p null hp, v, ==_self)

  lock_take-LockSet :
      (s.lock p).holder_repeat_nr ≡ 0
      → Returns
          (λ _ s'.
            LockSet s p (record (s.lock p) { holder = s.current_task; holder_repeat_nr = 1 }) s'
            × (s'.unmasked ≡ s.unmasked))
          (lock_take p s)
  unfolding lock_take get_lock modify_lock
  lock_take-LockSet v =
      simp (ne→==_false p null hp, v, ==_self)
        (returns
          (record { lock = ground arith; other_locks = λ q ne. ground arith; rest = refl }, refl))

-- `lock_acquire` of a free lock: the running task holds it once, SIGALRM is let through, and nothing
-- else changes.
pub lock_acquire_free :
    (rounds : ℕ) (s : Store) (p : Ptr)
    → p ≢ null
    → s.current_task ≢ null
    → s.lock p ≡ free_lock
    → Returns
        (λ _ s'. LockSet s p (held s.current_task 1) s' × (s'.unmasked ≡ true))
        (lock_acquire rounds p s)
unfolding lock_acquire sema_down sema_down_loop lock_take get_lock modify_lock interrupt_disable
    interrupt_enable
lock_acquire_free rounds s p hp hc l =
    let other : (null == s.current_task) ≡ false = ground arith in
    simp (ne→==_false p null hp, ==_self, other, l)
      (returns
        (record { lock = ground arith; other_locks = λ q ne. ground arith; rest = refl }, refl))

-- `lock_acquire` by the holder counts one up, if the counter does not overflow its 32 bits, and
-- nothing else changes.
pub lock_acquire_again :
    (rounds : ℕ) (s : Store) (p : Ptr) (n : ℕ)
    → p ≢ null
    → s.lock p ≡ held s.current_task n
    → n + 1 < 2 ^ 32
    → Returns
        (λ _ s'. LockSet s p (held s.current_task (n + 1)) s' × (s'.unmasked ≡ s.unmasked))
        (lock_acquire rounds p s)
unfolding lock_acquire get_lock modify_lock
lock_acquire_again rounds s p n hp l lt =
    let own : (s.current_task == s.current_task) ≡ true = ground arith in
    let no_wrap : (n + 1) % 2 ^ 32 ≡ n + 1 = omega arith in
    simp (ne→==_false p null hp, l, own, no_wrap)
      (returns
        (record { lock = ground arith; other_locks = λ q ne. ground arith; rest = refl }, refl))

sema_down_loop_blocked :
    (rounds : ℕ) (s : Store) (p : Ptr) (m : Links)
    → p ≢ null
    → (s.lock p).value ≡ 0
    → elem_find rounds p (general_tag s.current_task) s.links ≡ ok false s.links
    → list_append p (general_tag s.current_task) s.links ≡ ok tt m
    → sema_down_loop rounds p s ≡ task_block task_blocked (record s { links = m })
unfolding sema_down_loop sema_wait get_lock
sema_down_loop_blocked rounds s p m hp taken find append =
    rw (ne→==_false p null hp, taken, find, find, append) refl

-- what a blocked task leaves behind: the next task runs, and the waiters are one more
abbrev pub Waits : Store → (p t : Ptr) (ws ts : List Ptr) → Store → Type 0
Waits s p t ws ts s' =
    Switched s s.current_task t (blocked s task_blocked) ts s'
    × IsQueue s'.links p (ws ++ (s.current_task ∷ []))
    × (s'.unmasked ≡ s.unmasked)

-- The round of the loop of `sema_down` at a semaphore that is taken.
pub sema_down_loop-Waits :
    (rounds : ℕ) (s : Store) (p t : Ptr) (ws ts : List Ptr)
    → IsLockAddress p
    → (s.lock p).value ≡ 0
    → IsQueue s.links p ws
    → IsReady s.links (t ∷ ts)
    → IsTask s.current_task
    → s.current_task ∉ ws
    → s.current_task ∉ (t ∷ ts)
    → Apart (t ∷ ts) ws
    → length ws < rounds
    → HandsOver (Waits s p t ws ts) (sema_down_loop rounds p s)
sema_down_loop-Waits rounds s p t ws ts place taken wait ready task out_ws out_ts apart lt =
    let c = s.current_task in
    let (m, append, wait', same) = IsQueue-append wait c task out_ws in
    let ready' =
      IsQueue-spared_insert (t ∷ ts) ws c ready place.1 wait.tasks task (omega arith)
        (Apart-cons (t ∷ ts) ws c apart out_ts) same in
    rw
      (sema_down_loop_blocked rounds s p m (omega arith) taken
        (rw out_ws at (IsQueue-find wait rounds c lt)) append)
      (HandsOver-mono
        (task_block-Switched (record s { links = m }) task_blocked t ts refl (omega arith) ready')
        λ s' (w, spared, mask). (
          record {
            current = w.current;
            ready = w.ready;
            running = w.running;
            cpu = w.cpu;
            parked = w.parked;
            others = w.others;
            globals = record {
              lock = w.globals.lock;
              main_task = w.globals.main_task;
              task_all_nums = w.globals.task_all_nums;
              tid_start = w.globals.tid_start;
              tid_bitmap = w.globals.tid_bitmap;
              supply = w.globals.supply;
            };
          },
          IsQueue-spared (ws ++ (c ∷ [])) (t ∷ ts) wait' (omega arith) ready.tasks (omega arith)
              (Apart-snoc (t ∷ ts) ws c apart out_ts) spared,
          mask,
        ))

-- `lock_acquire` of a lock whose value is 0 and that the running task does not hold, with a task
-- ready: the running task, neither a waiter nor ready, joins the waiters, last, and is blocked; the
-- first ready task runs, with SIGALRM still blocked. No ready task waits for the lock, and `rounds`
-- exceeds the number of waiters.
pub lock_acquire_blocked :
    (rounds : ℕ) (s : Store) (p t : Ptr) (ws ts : List Ptr)
    → IsLockAddress p
    → (s.lock p).holder ≢ s.current_task
    → (s.lock p).value ≡ 0
    → IsQueue s.links p ws
    → IsReady s.links (t ∷ ts)
    → IsTask s.current_task
    → s.current_task ∉ ws
    → s.current_task ∉ (t ∷ ts)
    → Apart (t ∷ ts) ws
    → length ws < rounds
    → HandsOver (Waits (record s { unmasked = false }) p t ws ts) (lock_acquire rounds p s)
unfolding lock_acquire sema_down interrupt_disable get_lock
lock_acquire_blocked rounds s p t ws ts place other taken wait ready task out_ws out_ts apart lt =
    let not_own : ((s.lock p).holder == s.current_task) ≡ false = ground arith in
    rw (ne→==_false p null (omega arith), not_own)
      (HandsOver-bind (λ _. lock_take p)
        (sema_down_loop-Waits rounds (record s { unmasked = false }) p t ws ts place taken wait
          ready task out_ws out_ts apart lt))
