-- ===== src/Sync/LostWakeup.antt =====
-- An interleaving in which a woken task is lost: `task_unblock` lets SIGALRM through before
-- `sema_up` has raised the value.
use mathlib.Core.Path.{subst}
use lutf.Base.{
  ℕ, ◌+◌, ◌<◌, ◌≡◌, ◌≢◌, List, [], ◌∷◌, ◌++◌, arith, ok, ◌∉◌, true, switched, Returns-eq, length,
  ◌∙◌, ap, Apart, sym,
}
use lutf.Lists.{Ptr, null}
use lutf.Store.{Store, Lock}
use lutf.Tasks.{schedule, is_parked}
use lutf.Tasks.Queue.{IsTask, IsQueue, IsReady, IsQueue-Distinct}
use lutf.Tasks.Preempt.{schedule_lem}
use lutf.Tasks.Park.{HandsOver-eq}
use lutf.Sync.{sema_down_loop, sema_up, sema_raise}
use lutf.Sync.Waiters.{IsLockAddress, IsQueue-spared}
use lutf.Sync.Acquire.{sema_down_loop-Waits}
use lutf.Sync.Release.{sema_up-Handed, sema_raise-LockSet}

-- `c` runs, `ts` are ready and `ws` wait at `p`, whose value is 0.
record Stands (s : Store) (c : Ptr) (ts : List Ptr) (p : Ptr) (ws : List Ptr) : Type 0 where
  current : s.current_task ≡ c
  ready : IsReady s.links ts
  waiting : IsQueue s.links p ws
  value : (s.lock p).value ≡ 0

module _ (rounds : ℕ) (p c w : Ptr) (ws : List Ptr) (place : IsLockAddress p) (task_c : IsTask c)
    (task_w : IsTask w) (out_c : c ∉ (w ∷ ws)) (out_w : w ∉ ws) (lt : length ws + 2 < rounds) where
  woken_Apart : Apart ws (w ∷ c ∷ [])
  woken_Apart a i = ground arith

  idle_Apart : Apart (c ∷ []) ws
  idle_Apart a i = ground arith

  preempted :
      (s : Store)
      → Stands s c (w ∷ []) p ws
      → (s' : Store) × (schedule rounds s ≡ ok tt s') × Stands s' w (c ∷ []) p ws
  preempted s h =
      let e = sym h.current in
      let (_, s', eq, sw) = Returns-eq (
        schedule_lem rounds s (w ∷ []) (c ∷ []) w h.ready (subst IsTask e task_c)
          (subst (λ x. x ∉ (w ∷ [])) e (ground arith)) (omega arith)
          (ap (λ x. w ∷ x ∷ []) h.current)) in
      (
        s',
        eq,
        record {
          current = sw.0.current;
          ready = sw.0.ready;
          waiting =
              IsQueue-spared ws (w ∷ c ∷ []) h.waiting (omega arith) (task_w, (task_c, tt))
                (omega arith) woken_Apart sw.1;
          value = ap (λ (f : Ptr → Lock). (f p).value) sw.0.globals.lock ∙ h.value;
        },
      )

  blocked_again :
      (s : Store)
      → Stands s w (c ∷ []) p ws
      → (s' : Store) × (sema_down_loop rounds p s ≡ switched s') × Stands s' c [] p (ws ++ (w ∷ []))
  blocked_again s h =
      let e = sym h.current in
      let (s', eq, waits) = HandsOver-eq (
        sema_down_loop-Waits rounds s p c ws [] place h.value h.waiting h.ready
          (subst IsTask e task_w) (subst (λ x. x ∉ ws) e out_w)
          (subst (λ x. x ∉ (c ∷ [])) e (ground arith)) idle_Apart (omega arith)) in
      (
        s',
        eq,
        record {
          current = waits.0.current;
          ready = waits.0.ready;
          waiting = subst (λ x. IsQueue s'.links p (ws ++ (x ∷ []))) h.current waits.1;
          value = ap (λ (f : Ptr → Lock). (f p).value) waits.0.globals.lock ∙ h.value;
        },
      )

-- the releasing task raises the value, and nothing else changes
raised :
    (s : Store) (c p : Ptr) (ts ws : List Ptr)
    → p ≢ null
    → Stands s c ts p ws
    → (s' : Store) × (sema_raise p s ≡ ok tt s')
      × ((s'.lock p).value ≡ 1)
      × IsQueue s'.links p ws
      × IsReady s'.links ts
raised s c p ts ws hp h =
    let (_, s', eq, set) = Returns-eq (sema_raise-LockSet s p hp h.value) in
    (s', eq, ap (λ l. l.value) set.0.lock, rw set.0.rest h.waiting, rw set.0.rest h.ready)

-- The four stores of the interleaving: `raising` when the releasing task has woken the waiter,
-- `woken` when the clock has given the waiter the processor, `again` when it has found the value 0
-- and blocked once more, `done` when the releasing task has raised the value.
pub record Stranding (rounds : ℕ) (s : Store) (p w : Ptr) (ws : List Ptr) : Type 0 where
  pub raising : Store
  pub woken : Store
  pub again : Store
  pub done : Store
  pub wakes : sema_up rounds p s ≡ sema_raise p raising
  pub interruptible : raising.unmasked ≡ true
  pub preempted : schedule rounds raising ≡ ok tt woken
  pub runs : woken.current_task ≡ w
  pub blocks : sema_down_loop rounds p woken ≡ switched again
  pub resumes : again.current_task ≡ s.current_task
  pub raises : sema_raise p again ≡ ok tt done
  pub free : (done.lock p).value ≡ 1
  pub waiting : IsQueue done.links p (ws ++ (w ∷ []))
  pub idle : IsReady done.links []

-- The value of a semaphore is 0, tasks wait for it, and no task is ready. `sema_up` wakes the first
-- waiter with SIGALRM let through. If the clock calls `schedule` there, before the value is raised,
-- the waiter finds 0 and blocks again; the value is raised afterwards, and in the end it is 1 while
-- all the waiters still wait and no task is ready.
pub sema_up-Stranding :
    (rounds : ℕ) (s : Store) (p w : Ptr) (ws : List Ptr)
    → IsLockAddress p
    → (s.lock p).value ≡ 0
    → IsQueue s.links p (w ∷ ws)
    → IsReady s.links []
    → IsTask s.current_task
    → s.current_task ∉ (w ∷ ws)
    → is_parked (s.task w).status ≡ true
    → length ws + 2 < rounds
    → Stranding rounds s p w ws
sema_up-Stranding rounds s p w ws place v wait ready task out parked lt =
    let c = s.current_task in
    let (s₁, up, k) =
      sema_up-Handed rounds s p w ws [] place v wait ready (λ a i. ground arith) parked
        (omega arith) in
    let stands : Stands s₁ c (w ∷ []) p ws = record {
      current = k.current;
      ready = k.ready;
      waiting = k.waiting;
      value = ap (λ (f : Ptr → Lock). (f p).value) k.lock ∙ v;
    } in
    let alone = IsQueue-Distinct w ws wait in
    let (s₂, sched, stands₂) =
      preempted rounds p c w ws place task wait.tasks.0 out alone lt s₁ stands in
    let (s₃, down, stands₃) =
      blocked_again rounds p c w ws place task wait.tasks.0 out alone lt s₂ stands₂ in
    let (s₄, raise, free, waiting, idle) =
      raised s₃ c p [] (ws ++ (w ∷ [])) (omega arith) stands₃ in
    record {
      raising = s₁;
      woken = s₂;
      again = s₃;
      done = s₄;
      wakes = up;
      interruptible = k.unmasked;
      preempted = sched;
      runs = stands₂.current;
      blocks = down;
      resumes = stands₃.current;
      raises = raise;
      free = free;
      waiting = waiting;
      idle = idle;
    }
