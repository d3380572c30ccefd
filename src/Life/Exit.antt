-- ===== src/Life/Exit.antt =====
-- `task_exit`: a task ends, and another one runs.
use mathlib.Core.Path.{subst}
use lutf.Base.{
  ℕ, ◌+◌, ◌*◌, ◌^◌, ◌<◌, ◌≡◌, refl, ◌≢◌, ◌==◌, true, false, if◌then◌else◌, List, [], ◌∷◌, ◌++◌,
  arith, ok, switched, Returns-eq, sym, ◌∙◌, ap, length, ◌∉◌, ne→==_false, ==_self,
}
use lutf.Base.Int.{pos, dec}
use lutf.Bitmap.Bits.{bit, IsBitmap}
use lutf.Bitmap.Update.{HasBits}
use lutf.Life.{task_exit}
use lutf.Life.Parted.{Lists, remove-Lists, pool-Lists, pop-Lists}
use lutf.Lists.{Ptr, null, Links, list_pop}
use lutf.Store.{
  Store, Task, task_died, task_running, general_tag, elem2entry, general_tag_offset,
  task_ready_list, tid_lock,
}
use lutf.Store.Access.{
  get_task, get_task-eq, modify_task, modify_task-eq, interrupt_disable, interrupt_enable,
  update_at, update_at_self,
}
use lutf.Sync.Acquire.{free_lock}
use lutf.Tasks.{died_task_schedule}
use lutf.Tasks.Park.{HandsOver, hands_over}
use lutf.Tasks.Queue.{IsTask, IsReady, IsQueue-find, IsQueue-empty}
use lutf.Tids.Allocate.{Idle, Marked}
use lutf.Tids.Release.{release_tid-Marked}

-- the store as the task `u` begins to run in place of one that has ended
abbrev taken_over : Store → Ptr → Links → Store
taken_over x u m =
    let tasks = update_at x.task u (record (x.task u) { status = task_running }) in
    record x { links = m; task = tasks; current_task = u; cpu = (tasks u).context }

died_task_schedule-eq :
    (x : Store) (u : Ptr) (ts : List Ptr) (m : Links)
    → IsReady x.links (u ∷ ts)
    → list_pop task_ready_list x.links ≡ ok (general_tag u) m
    → died_task_schedule x ≡ switched (taken_over x u m)
unfolding died_task_schedule modify_task get_task
died_task_schedule-eq x u ts m r pop =
    let some_task : (u == null) ≡ false = ground (arith, r.tasks.0) in
    let entry : elem2entry general_tag_offset (general_tag u) ≡ u = omega arith in
    rw (IsQueue-empty (u ∷ ts) r, pop, entry, some_task, some_task) refl

-- What `task_exit` finds where nothing fails: the running task is in the list of all tasks, is not the
-- main task, and has a tid that is in use; `u` is the first of the ready tasks.
pub record CanExit (s : Store) (rounds : ℕ) (u : Ptr) (ts us vs ps : List Ptr) (n : ℕ)
    : Type 0 where
  pub lists : Lists s.links (u ∷ ts) (us ++ (s.current_task ∷ vs)) ps
  pub place : IsTask s.current_task
  pub running : s.current_task ∉ (u ∷ ts)
  pub unpooled : s.current_task ∉ ps
  pub other : s.current_task ≢ s.main_task
  pub free : s.lock tid_lock ≡ free_lock
  pub bitmap : IsBitmap s.tid_bitmap
  pub tid : (s.task s.current_task).tid ≡ pos (n + s.tid_start)
  pub inside : n < length s.tid_bitmap.bits * 8
  pub small : n + s.tid_start < 2 ^ 15
  pub few : length (u ∷ ts) < rounds

-- The running task of `s` has ended, and `u` runs.
pub record Exited (s : Store) (u : Ptr) (ts us vs ps : List Ptr) (n : ℕ) (s' : Store) : Type 0 where
  pub current : s'.current_task ≡ u
  pub lists : Lists s'.links ts (us ++ vs) (ps ++ (s.current_task ∷ []))
  pub dead : s'.task s.current_task ≡ record (s.task s.current_task) { status = task_died }
  pub next : s'.task u ≡ record (s.task u) { status = task_running }
  pub cpu : s'.cpu ≡ (s.task u).context
  pub others : (p : Ptr) → p ≢ s.current_task → p ≢ u → s'.task p ≡ s.task p
  pub count : s'.task_all_nums ≡ dec s.task_all_nums
  pub bits :
      HasBits s.tid_bitmap (λ j. if n == j then false else bit s.tid_bitmap.bits j) s'.tid_bitmap
  pub unmasked : s'.unmasked ≡ true
  pub locks : (q : Ptr) → s'.lock q ≡ s.lock q
  pub start : s'.tid_start ≡ s.tid_start

-- the store when the tid is given back
abbrev left_behind : Store → Links → Store
left_behind s m =
    let t = s.current_task in
    record s {
      unmasked = false;
      task = update_at s.task t (record (s.task t) { status = task_died });
      links = m;
      task_all_nums = dec s.task_all_nums;
    }

taken_over-Exited :
    (s s₃ : Store) (u : Ptr) (ts us vs ps : List Ptr) (n : ℕ) (m m' : Links)
    → u ≢ s.current_task
    → Marked (left_behind s m) (λ j. if n == j then false else bit s.tid_bitmap.bits j) s₃
    → Lists m' ts (us ++ vs) (ps ++ (s.current_task ∷ []))
    → Exited s u ts us vs ps n (taken_over (record s₃ { unmasked = true }) u m')
taken_over-Exited s s₃ u ts us vs ps n m m' ne mk lists =
    let tasks : s₃.task ≡ (left_behind s m).task = ap (λ (x : Store). x.task) mk.rest in
    let at = λ (p : Ptr). ap (λ (f : Ptr → Task). f p) tasks in
    let here : s₃.task u ≡ s.task u = at u ∙ rw (ne→==_false u s.current_task ne) refl in
    record {
      current = refl;
      lists = lists;
      dead =
          rw (ne→==_false s.current_task u (λ e. ne (sym e)))
            (at s.current_task ∙ update_at_self s.task s.current_task _);
      next = rw ==_self (ap (λ (r : Task). record r { status = task_running }) here);
      cpu = rw ==_self (ap (λ (r : Task). r.context) here);
      others =
          λ p np nu. rw (ne→==_false p u nu) (at p ∙ rw (ne→==_false p s.current_task np) refl);
      count = ap (λ (x : Store). x.task_all_nums) mk.rest;
      bits = mk.bits;
      unmasked = refl;
      locks = mk.locks;
      start = ap (λ (x : Store). x.tid_start) mk.rest;
    }

-- `task_exit` of the running task, not the main one, with another task ready: it leaves the list of all
-- tasks, is dead and last in the pool, and its tid is free again; the first ready task runs. The tasks
-- are one less, and no other task is written. `rounds` exceeds the number of ready tasks.
pub task_exit-Exited :
    (rounds : ℕ) (s : Store) (u : Ptr) (ts us vs ps : List Ptr) (n : ℕ)
    → CanExit s rounds u ts us vs ps n
    → HandsOver (Exited s u ts us vs ps n) (task_exit rounds s.current_task s)
unfolding task_exit interrupt_disable interrupt_enable
task_exit-Exited rounds s u ts us vs ps n can =
    let t = s.current_task in
    let ht : t ≢ null = omega (arith, can.place) in
    let (m₁, remove, lists₁) = remove-Lists s.links t (u ∷ ts) us vs ps can.lists in
    let (m₂, append, lists₂) =
      pool-Lists m₁ t (u ∷ ts) (us ++ vs) ps lists₁ can.place can.unpooled in
    let x = left_behind s m₂ in
    let own : x.task t ≡ record (s.task t) { status = task_died } = update_at_self s.task t _ in
    let tid : (x.task t).tid ≡ pos (n + s.tid_start) = ap (λ (r : Task). r.tid) own ∙ can.tid in
    let idle : Idle x = record { free = can.free; nobody = lists₂.nobody; running = ht } in
    let (_, s₃, release, mk) =
      Returns-eq (release_tid-Marked rounds x n idle can.bitmap can.inside can.small) in
    rw
      (
        modify_task-eq (record s { unmasked = false }) t ht (λ r. record r { status = task_died }),
        rw can.running at (IsQueue-find can.lists.ready rounds t can.few),
        remove,
        ne→==_false t s.main_task can.other,
        append,
        get_task-eq x t ht,
        tid,
        release,
      )
      (let links : s₃.links ≡ m₂ = ap (λ (x : Store). x.links) mk.rest in
        let (m', pop, lists₃) = pop-Lists m₂ u ts (us ++ vs) (ps ++ (t ∷ [])) lists₂ in
        let pop' : list_pop task_ready_list s₃.links ≡ ok (general_tag u) m' =
          subst (λ l. list_pop task_ready_list l ≡ ok (general_tag u) m') (sym links) pop in
        rw
          (died_task_schedule-eq (record s₃ { unmasked = true }) u ts m' (rw links lists₂.ready)
            pop')
          (hands_over
            (taken_over-Exited s s₃ u ts us vs ps n m₂ m' (ground (arith, can.running)) mk lists₃)))
