-- ===== src/Tasks/Park.antt =====
-- `task_block`, `task_unblock`, and the switch away from a task that has died.
use lutf.Base.{
  ℕ, ◌<◌, ◌≡◌, ◌≢◌, refl, List, [], ◌∷◌, arith, ok, ◌∉◌, ◌==◌, true, false, Returns, returns,
  length, Run, switched, spin, ◌∙◌, Cmd, and_then,
}
use lutf.Lists.{Ptr, null, Links, list_empty, list_pop, list_push, elem_find}
use lutf.Lists.Chain.{SameOutside, nodes}
use lutf.Store.{
  Store, Task, TaskStatus, task_ready, ◌=ₛ◌, general_tag, elem2entry, general_tag_offset,
  task_ready_list,
}
use lutf.Store.Access.{get_task, modify_task, update_at, interrupt_disable, interrupt_enable}
use lutf.Tasks.{is_parked, block_task_schedule, task_block, task_unblock}
use lutf.Tasks.Queue.{IsTask, tags, IsReady, IsQueue-find, IsQueue-pop, IsQueue-push, IsQueue-empty}
use lutf.Tasks.Switch.{SameGlobals, Switched, Prepared, switched_to, switched_to-Switched}

-- A call that hands the processor over, with what holds of the store then.
pub data HandsOver {S A : Type 0} (P : S → Type 0) : Run S A → Type 0 where
  hands_over : {s : S} → P s → HandsOver P (switched s)

-- the running task as `task_block` leaves it
abbrev pub blocked : Store → TaskStatus → Task
blocked s status = record (s.task s.current_task) { status = status; context = s.cpu }

abbrev marked : Store → TaskStatus → Store
marked s status =
    let c = s.current_task in
    record s { task = update_at s.task c (record (s.task c) { status = status }) }

marked-Prepared :
    (s : Store) (status : TaskStatus)
    → Prepared s s.current_task (blocked s status) (marked s status)
marked-Prepared s status = record {
  own = ground arith;
  others = λ p ne. ground arith;
  cpu = refl;
  globals = record {
    lock = refl;
    main_task = refl;
    task_all_nums = refl;
    tid_start = refl;
    tid_bitmap = refl;
    supply = refl;
  };
}

task_block-eq :
    (s : Store) (status : TaskStatus)
    → is_parked status ≡ true
    → s.current_task ≢ null
    → task_block status s ≡ block_task_schedule (marked s status)
unfolding task_block modify_task
task_block-eq s status h hc =
    let c_null : (s.current_task == null) ≡ false = ground arith in rw (h, c_null) refl

block_task_schedule-eq :
    (s : Store) (t : Ptr) (m : Links)
    → s.current_task ≢ null
    → t ≢ null
    → list_empty task_ready_list s.links ≡ ok false s.links
    → list_pop task_ready_list s.links ≡ ok (general_tag t) m
    → block_task_schedule s ≡ switched (switched_to s s.current_task t m)
unfolding block_task_schedule get_task modify_task
block_task_schedule-eq s t m hc ht more pop =
    let entry : elem2entry general_tag_offset (general_tag t) ≡ t = omega arith in
    let t_null : (t == null) ≡ false = ground arith in
    let c_null : (s.current_task == null) ≡ false = ground arith in
    rw (more, more, pop, entry, t_null, c_null, t_null) refl

-- `task_block` with one of the three parked statuses, and a task ready: the running task takes the
-- status and saves its registers, and the first ready task runs; no node outside the ready list is
-- written, and the signal mask stays.
pub task_block-Switched :
    (s : Store) (status : TaskStatus) (t : Ptr) (ts : List Ptr)
    → is_parked status ≡ true
    → s.current_task ≢ null
    → IsReady s.links (t ∷ ts)
    → HandsOver
        (λ s'.
          Switched s s.current_task t (blocked s status) ts s'
          × SameOutside (nodes task_ready_list (tags (t ∷ ts))) s.links s'.links
          × (s'.unmasked ≡ s.unmasked))
        (task_block status s)
task_block-Switched s status t ts h hc r =
    let (m, pop, r', same) = IsQueue-pop t ts r in
    rw
      (
        task_block-eq s status h hc,
        block_task_schedule-eq (marked s status) t m hc (ground (arith, r.tasks))
            (IsQueue-empty (t ∷ ts) r) pop,
      )
      (hands_over (
        switched_to-Switched s (marked s status) s.current_task t (blocked s status) ts m
            (marked-Prepared s status) r',
        same,
        refl,
      ))

-- It stops at its assertion for any other status, and loops for ever when no task is ready.
pub task_block_stuck :
    (s : Store) (status : TaskStatus)
    → (is_parked status ≡ false → task_block status s ≡ spin s)
      × (is_parked status ≡ true
          → s.current_task ≢ null
          → IsReady s.links []
          → task_block status s ≡ spin (marked s status))
unfolding task_block block_task_schedule
task_block_stuck s status = (λ h. rw h refl, λ h hc r. task_block-eq s status h hc ∙ idle r)
  where
    idle : IsReady s.links [] → block_task_schedule (marked s status) ≡ spin (marked s status)
    idle r = rw (IsQueue-empty [] r) refl

-- What waking the task `p` changes: it is ready, in front of the others, and SIGALRM is let through.
pub record Woken (s : Store) (p : Ptr) (ts : List Ptr) (s' : Store) : Type 0 where
  pub ready : IsReady s'.links (p ∷ ts)
  pub spared : SameOutside (general_tag p ∷ nodes task_ready_list (tags ts)) s.links s'.links
  pub woken : s'.task p ≡ record (s.task p) { status = task_ready }
  pub others : (q : Ptr) → q ≢ p → s'.task q ≡ s.task q
  pub current : s'.current_task ≡ s.current_task
  pub cpu : s'.cpu ≡ s.cpu
  pub unmasked : s'.unmasked ≡ true
  pub globals : SameGlobals s s'

task_unblock-eq :
    (rounds : ℕ) (s : Store) (p : Ptr) (m : Links)
    → p ≢ null
    → is_parked (s.task p).status ≡ true
    → elem_find rounds task_ready_list (general_tag p) s.links ≡ ok false s.links
    → list_push task_ready_list (general_tag p) s.links ≡ ok tt m
    → task_unblock rounds p s
      ≡ ok tt (record s {
        links = m;
        task = update_at s.task p (record (s.task p) { status = task_ready });
        unmasked = true;
      })
unfolding task_unblock get_task modify_task interrupt_disable interrupt_enable
task_unblock-eq rounds s p m hp h find push =
    let p_null : (p == null) ≡ false = ground arith in
    let not_ready : ((s.task p).status =ₛ task_ready) ≡ false = ground arith in
    rw (p_null, h, not_ready, find, push, p_null) refl

-- `task_unblock` of a parked task that is not in the ready queue: it becomes ready and stands first
-- in the queue, SIGALRM is let through, and no other task, node or global changes. `rounds` exceeds
-- the length of the queue.
pub task_unblock-Woken :
    (rounds : ℕ) (s : Store) (p : Ptr) (ts : List Ptr)
    → IsReady s.links ts
    → IsTask p
    → p ∉ ts
    → is_parked (s.task p).status ≡ true
    → length ts < rounds
    → Returns (λ _. Woken s p ts) (task_unblock rounds p s)
task_unblock-Woken rounds s p ts r hp out h lt =
    let (m, push, r', same) = IsQueue-push r p hp out in
    rw (task_unblock-eq rounds s p m (omega arith) h (rw out at (IsQueue-find r rounds p lt)) push)
      (returns (record {
        ready = r';
        spared = same;
        woken = ground arith;
        others = λ q ne. ground arith;
        current = refl;
        cpu = refl;
        unmasked = refl;
        globals = record {
          lock = refl;
          main_task = refl;
          task_all_nums = refl;
          tid_start = refl;
          tid_bitmap = refl;
          supply = refl;
        };
      }))

-- Waking a task that is not parked stops at the assertion, with SIGALRM blocked.
pub task_unblock_refused :
    (rounds : ℕ) (s : Store) (p : Ptr)
    → p ≢ null
    → is_parked (s.task p).status ≡ false
    → task_unblock rounds p s ≡ spin (record s { unmasked = false })
unfolding task_unblock get_task interrupt_disable
task_unblock_refused rounds s p hp h =
    let p_null : (p == null) ≡ false = ground arith in rw (p_null, h) refl

pub HandsOver-mono :
    {S A : Type 0} {P Q : S → Type 0} {r : Run S A}
    → HandsOver P r
    → ((s : S) → P s → Q s)
    → HandsOver Q r
HandsOver-mono (hands_over p) weaken = hands_over (weaken _ p)

pub HandsOver-eq :
    {S A : Type 0} {P : S → Type 0} {r : Run S A} → HandsOver P r → (s : S) × (r ≡ switched s) × P s
HandsOver-eq (hands_over {s} p) = (s, refl, p)

pub HandsOver-bind :
    {S A B : Type 0} {P : S → Type 0} {r : Run S A} (k : A → Cmd S B)
    → HandsOver P r
    → HandsOver P (and_then r k)
HandsOver-bind k (hands_over p) = hands_over p

pub HandsOver-switched :
    {S A : Type 0} {P : S → Type 0} {s : S} → HandsOver {A = A} P (switched s) → P s
HandsOver-switched (hands_over p) = p
