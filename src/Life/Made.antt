-- ===== src/Life/Made.antt =====
-- `init_task`: what becomes of the structure of a new task, and of the rest of the memory.
use lutf.Base.{
  ==_iff, ℕ, ◌+◌, ◌%◌, ◌<◌, ◌≡◌, ◌≢◌, ◌==◌, ltb, true, false, if◌then◌else◌, List, [], ◌∷◌, arith,
  Returns, returns, bind, sym, ◌∙◌, ap, length, ne→==_false,
}
use lutf.Base.Int.{ℤ, to_int16, to_uint32}
use lutf.Bitmap.Bits.{bit, IsBitmap}
use lutf.Bitmap.Scan.{FirstClear}
use lutf.Life.{task_stack_size, zero_task, zero_node, zero_struct, init_task}
use lutf.Life.Filled.{Made, fill_task-Made}
use lutf.Life.Wrote.{Wrote, Wrote-modify, Wrote-none}
use lutf.Lists.{Ptr, null, Links}
use lutf.Lists.Chain.{SameOutside}
use lutf.Store.{
  Store, Task, Lock, task_running, task_ready, general_tag, all_list_tag, pool_tag, tid_lock,
}
use lutf.Tasks.Queue.{IsTask, IsQueue, IsQueue-frame}
use lutf.Sync.Acquire.{free_lock}
use lutf.Tids.Allocate.{Idle}

-- the list nodes of a task, and the links after they have been zeroed
abbrev pub own_nodes : Ptr → List Ptr
own_nodes t = general_tag t ∷ all_list_tag t ∷ pool_tag t ∷ []

abbrev pub zeroed : Ptr → Links → Links
zeroed t m = zero_node (pool_tag t) (zero_node (all_list_tag t) (zero_node (general_tag t) m))

pub zeroed-same : (t : Ptr) (m : Links) → SameOutside (own_nodes t) m (zeroed t m)
zeroed-same t m p out = (ground arith, ground arith)

-- the fields of a new task
abbrev pub new_task : (name : List ℕ) (prio tid : ℤ) (stack : Ptr) → Task
new_task name prio tid stack = record zero_task {
  status = task_ready;
  name = name;
  first = true;
  tid = tid;
  stack_min_addr = stack;
  task_stack = stack + task_stack_size;
  priority = to_uint32 prio % 256;
  ticks = to_uint32 prio % 256;
  stack_magic = 0x19991120;
}

-- the fields of the main task
abbrev pub main_struct : (name : List ℕ) (prio tid : ℤ) (stack : Ptr) → Task
main_struct name prio tid stack = record (new_task name prio tid stack) {
  status = task_running;
  first = false;
}

zero_struct-Wrote :
    (s : Store) (t : Ptr)
    → t ≢ null
    → Returns (λ _. Wrote (record s { links = zeroed t s.links }) t zero_task) (zero_struct t s)
zero_struct-Wrote s t ht = bind (Wrote-modify (λ _. zero_task) ht (Wrote-none s t)) λ _ s₁ w.
    returns (record {
      own = w.own;
      others = w.others;
      rest = ap (λ (x : Store). record x { links = zeroed t x.links }) w.rest;
    })

runs-Wrote :
    {s s' : Store} {t : Ptr} {r : Task}
    → Wrote s t r s'
    → Wrote (record s { current_task = t }) t r (record s' { current_task = t })
runs-Wrote {t} w = record {
  own = w.own;
  others = w.others;
  rest = ap (λ (x : Store). record x { current_task = t }) w.rest;
}

zeroed-Idle :
    (s s₁ : Store) (t : Ptr)
    → IsTask t
    → s.lock tid_lock ≡ free_lock
    → IsQueue s.links tid_lock []
    → s₁.lock ≡ s.lock
    → s₁.links ≡ zeroed t s.links
    → s₁.current_task ≢ null
    → Idle s₁
zeroed-Idle s s₁ t task free nobody lock links running = record {
  free = ap (λ (l : Ptr → Lock). l tid_lock) lock ∙ free;
  nobody =
      rw links
        (IsQueue-frame (own_nodes t) nobody (zeroed-same t s.links) λ p i. ground (arith, task.0));
  running = running;
}

module _ (rounds : ℕ) (s : Store) (t : Ptr) (name : List ℕ) (prio : ℤ) (n : ℕ) (stack : Ptr)
    (more : List ℕ) (task : IsTask t) (short : length name < 32) (valid : IsBitmap s.tid_bitmap)
    (first : FirstClear s.tid_bitmap n) (supply : s.supply ≡ stack ∷ more) where
  -- `init_task` of a structure that is not the main task's, with a name that fits, a clear bit in the
  -- bitmap and the lock of the tids idle: the list nodes are zero, and the task is ready, with the tid
  -- of the first clear bit, a full time slice and a stack. SIGALRM is let through, which the lock of the
  -- tids does.
  pub init_task-Made :
      t ≢ s.main_task
      → Idle s
      → Returns
          (λ _.
            Made
              (record s { links = zeroed t s.links })
              t
              (new_task name prio (to_int16 (n + s.tid_start)) stack)
              (λ j. if n == j then true else bit s.tid_bitmap.bits j)
              more)
          (init_task rounds t name prio s)
  unfolding init_task
  init_task-Made other idle =
      let ht : t ≢ null = omega (arith, task.0) in
      let fits : ltb (length name) 32 ≡ true = ground arith in
      bind (zero_struct-Wrote s t ht) λ _ s₁ w₁. rw fits (
        bind (Wrote-modify (λ r. record r { name = name }) ht w₁) λ _ s₂ w₂.
          let not_main : (t == s₂.main_task) ≡ false =
            ne→==_false t s₂.main_task (λ e. other (e ∙ ap (λ (x : Store). x.main_task) w₂.rest)) in
          rw not_main (
            bind
              (bind (Wrote-modify (λ r. record r { status = task_ready }) ht w₂)
                λ _ s₃ w₃. Wrote-modify (λ r. record r { first = true }) ht w₃)
              λ _ s₃ w₃.
                fill_task-Made rounds (record s { links = zeroed t s.links }) t prio n stack more ht
                  w₃
                  (zeroed-Idle s s₃ t task idle.free idle.nobody
                    (ap (λ (x : Store). x.lock) w₃.rest) (ap (λ (x : Store). x.links) w₃.rest)
                    (λ e. idle.running (sym (ap (λ (x : Store). x.current_task) w₃.rest) ∙ e)))
                  valid first supply))

  -- `init_task` of the structure of the main task: that task runs.
  pub init_task_main-Made :
      t ≡ s.main_task
      → s.lock tid_lock ≡ free_lock
      → IsQueue s.links tid_lock []
      → Returns
          (λ _.
            Made
              (record s { links = zeroed t s.links; current_task = t })
              t
              (main_struct name prio (to_int16 (n + s.tid_start)) stack)
              (λ j. if n == j then true else bit s.tid_bitmap.bits j)
              more)
          (init_task rounds t name prio s)
  unfolding init_task
  init_task_main-Made own free nobody =
      let ht : t ≢ null = omega (arith, task.0) in
      let fits : ltb (length name) 32 ≡ true = ground arith in
      bind (zero_struct-Wrote s t ht) λ _ s₁ w₁. rw fits (
        bind (Wrote-modify (λ r. record r { name = name }) ht w₁) λ _ s₂ w₂.
          let is_main : (t == s₂.main_task) ≡ true =
            (==_iff t s₂.main_task).1 (own ∙ sym (ap (λ (x : Store). x.main_task) w₂.rest)) in
          rw is_main (
            bind
              {P = λ _.
                Wrote (record s { links = zeroed t s.links; current_task = t }) t
                  (record zero_task { name = name; status = task_running; first = false })}
              (bind (Wrote-modify (λ r. record r { status = task_running }) ht w₂) λ _ s₃ w₃.
                bind (Wrote-modify (λ r. record r { first = false }) ht w₃)
                  λ _ s₄ w₄. returns (runs-Wrote w₄))
              λ _ s₃ w₃.
                fill_task-Made rounds (record s { links = zeroed t s.links; current_task = t }) t
                  prio n stack more ht w₃
                  (zeroed-Idle s s₃ t task free nobody (ap (λ (x : Store). x.lock) w₃.rest)
                    (ap (λ (x : Store). x.links) w₃.rest)
                    (λ e. ht (sym (ap (λ (x : Store). x.current_task) w₃.rest) ∙ e)))
                  valid first supply))
