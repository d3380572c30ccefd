-- ===== src/Tasks/Switch.antt =====
-- What the scheduler does to the queue of ready tasks, to the two tasks of a switch, and to nothing
-- else.
use lutf.Base.{◌≡◌, ◌≢◌, refl, List, ◌∷◌, arith, ok, ◌==◌, false, Returns, returns, if◌then◌else◌}
use lutf.Lists.{Ptr, null, Links, list_pop}
use lutf.Lists.Chain.{nodes, SameOutside}
use lutf.Store.{
  Store, Task, task_running, general_tag, elem2entry, general_tag_offset, task_ready_list,
}
use lutf.Store.Access.{get_task, modify_task, update_at}
use lutf.Tasks.{switch_to_next}
use lutf.Tasks.Queue.{tags, IsReady, IsQueue-pop}

-- Between two stores: only list nodes, tasks, the current task and the processor differ.
pub record SameGlobals (s s' : Store) : Type 0 where
  pub lock : s'.lock ≡ s.lock
  pub main_task : s'.main_task ≡ s.main_task
  pub task_all_nums : s'.task_all_nums ≡ s.task_all_nums
  pub tid_start : s'.tid_start ≡ s.tid_start
  pub tid_bitmap : s'.tid_bitmap ≡ s.tid_bitmap
  pub supply : s'.supply ≡ s.supply

-- The processor goes from the task `c`, left as `left`, to the first ready task `t`.
pub record Switched (s : Store) (c t : Ptr) (left : Task) (ts : List Ptr) (s' : Store)
    : Type 0 where
  pub current : s'.current_task ≡ t
  pub ready : IsReady s'.links ts
  pub running : s'.task t ≡ (
      if t == c
      then record left { status = task_running }
      else record (s.task t) { status = task_running })
  pub cpu : s'.cpu ≡ (if t == c then s.cpu else (s.task t).context)
  pub parked : t ≢ c → s'.task c ≡ left
  pub others : (p : Ptr) → p ≢ c → p ≢ t → s'.task p ≡ s.task p
  pub globals : SameGlobals s s'

-- the store after the switch from `c` to `t`, with the links `m`
abbrev pub switched_to : Store → Ptr → Ptr → Links → Store
switched_to s c t m =
    let running = update_at s.task t (record (s.task t) { status = task_running }) in
    let saved = update_at running c (record (running c) { context = s.cpu }) in
    record s { links = m; task = saved; current_task = t; cpu = (saved t).context }

module _ (s : Store) (t : Ptr) (m : Links) (hc : s.current_task ≢ null) (ht : t ≢ null)
    (pop : list_pop task_ready_list s.links ≡ ok (general_tag t) m) where
  next_entry : elem2entry general_tag_offset (general_tag t) ≡ t
  next_entry = omega arith

  t_null : (t == null) ≡ false
  t_null = ground arith

  c_null : (s.current_task == null) ≡ false
  c_null = ground arith

  switch_to_next-eq : switch_to_next s ≡ ok tt (switched_to s s.current_task t m)
  unfolding switch_to_next get_task modify_task
  switch_to_next-eq = rw (pop, next_entry, t_null, c_null, t_null) refl

-- What the running task changes of itself before the switch.
pub record Prepared (s : Store) (c : Ptr) (left : Task) (s₁ : Store) : Type 0 where
  pub own : record (s₁.task c) { context = s₁.cpu } ≡ left
  pub others : (p : Ptr) → p ≢ c → s₁.task p ≡ s.task p
  pub cpu : s₁.cpu ≡ s.cpu
  pub globals : SameGlobals s s₁

pub switched_to-Switched :
    (s s₁ : Store) (c t : Ptr) (left : Task) (ts : List Ptr) (m : Links)
    → Prepared s c left s₁
    → IsReady m ts
    → Switched s c t left ts (switched_to s₁ c t m)
switched_to-Switched s s₁ c t left ts m h r = record {
  current = refl;
  ready = r;
  running = ground (arith, h.own, h.others t, h.cpu);
  cpu = ground (arith, h.own, h.others t, h.cpu);
  parked = λ ne. ground (arith, h.own);
  others = λ p nc nt. ground (arith, h.others p);
  globals = record {
    lock = h.globals.lock;
    main_task = h.globals.main_task;
    task_all_nums = h.globals.task_all_nums;
    tid_start = h.globals.tid_start;
    tid_bitmap = h.globals.tid_bitmap;
    supply = h.globals.supply;
  };
}

pub same_globals : (s : Store) → SameGlobals s s
same_globals s = record {
  lock = refl;
  main_task = refl;
  task_all_nums = refl;
  tid_start = refl;
  tid_bitmap = refl;
  supply = refl;
}

-- The switch itself, from a store in which the running task has made its changes.
pub switch_to_next-Switched :
    (s s₁ : Store) (t : Ptr) (ts : List Ptr) (left : Task)
    → s₁.current_task ≢ null
    → IsReady s₁.links (t ∷ ts)
    → Prepared s s₁.current_task left s₁
    → Returns
        (λ _ s'.
          Switched s s₁.current_task t left ts s'
          × SameOutside (nodes task_ready_list (tags (t ∷ ts))) s₁.links s'.links
          × (s'.unmasked ≡ s₁.unmasked))
        (switch_to_next s₁)
switch_to_next-Switched s s₁ t ts left hc r h =
    let (m, eq, r', same) = IsQueue-pop t ts r in
    rw (switch_to_next-eq s₁ t m hc (ground (arith, r.tasks)) eq)
      (returns (switched_to-Switched s s₁ s₁.current_task t left ts m h r', same, refl))
