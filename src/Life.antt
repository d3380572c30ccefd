-- ===== src/Life.antt =====
-- Tasks are created, end and are recycled: src/task/task.c.
pub mod Wrote
pub mod Filled
pub mod Made
pub mod Joined
pub mod Parted
pub mod Enlisted
pub mod Exit
pub mod Entry
pub mod Start
pub mod Pool
pub mod Begin
pub mod Empty
pub mod Find
pub mod World
mod Tests
use lutf.Base.{
  ℕ, zero, suc, ◌+◌, ◌-◌, ◌*◌, ◌/◌, ◌%◌, ◌^◌, Bool, true, false, not, ◌&&◌, ◌||◌, ◌==◌, ltb,
  if◌then◌else◌, List, [], ◌∷◌, Cmd, Unit₀, ok, fault, out_of_fuel, pure, assert, ◌>>=◌, ◌>>◌,
  length,
}
use lutf.Base.Int.{ℤ, pos, negsuc, inc, dec, to_uint32}
use lutf.Lists.{
  Ptr, null, Links, update, list_init, list_append, list_pop, list_remove, list_empty, elem_find,
  list_traversal,
}
use lutf.Store.{
  Store, Task, TaskStatus, task_running, task_ready, task_died, ◌=ₛ◌, Context, general_tag,
  all_list_tag, pool_tag, elem2entry, general_tag_offset, all_list_tag_offset, pool_tag_offset,
  task_ready_list, task_all_list, task_pool_list,
}
use lutf.Store.Access.{
  on_links, get_task, modify_task, get_current, set_current, get_main, interrupt_disable,
  interrupt_enable, malloc,
}
use lutf.Tasks.{set_status, died_task_schedule}
use lutf.Tids.{tid_pool_init, allocate_tid, release_tid}

-- the size of a task's stack in bytes, and of its name with the NUL
abbrev pub task_stack_size : ℕ
task_stack_size = 4096

abbrev pub name_size : ℕ
name_size = 32

abbrev set_nums : (ℤ → ℤ) → Cmd Store Unit₀
set_nums f s = ok tt (record s { task_all_nums = f s.task_all_nums })

abbrev pub zero_context : Context
zero_context = record { rip = 0; rsp = 0; rbp = 0; rdi = 0; rsi = 0; segments = 0; rest = 0 }

abbrev pub zero_task : Task
zero_task = record {
  task_stack = 0;
  stack_min_addr = null;
  context = zero_context;
  tid = pos 0;
  status = task_running;
  name = [];
  priority = 0;
  ticks = 0;
  elapsed_ticks = 0;
  stack_magic = 0;
  sleep_millisecond = 0;
  first = false;
  is_hook = false;
  is_collaborative_schedule = false;
}

abbrev pub zero_node : Ptr → Links → Links
zero_node e m = record { next = update m.next e null; prev = update m.prev e null }

-- `memset(ptask, 0, sizeof(*ptask))`: the fields and the three list nodes
abbrev pub zero_struct : Ptr → Cmd Store Unit₀
zero_struct t = do
  modify_task t (λ _. zero_task)
  on_links (λ m.
      ok tt (zero_node (pool_tag t) (zero_node (all_list_tag t) (zero_node (general_tag t) m))))

unfoldable pub task_exit : ℕ → Ptr → Cmd Store Unit₀
task_exit rounds task = do
  interrupt_disable
  set_status task_died task
  ready ← on_links (elem_find rounds task_ready_list (general_tag task))
  if ready then on_links (list_remove (general_tag task)) else pure tt
  on_links (list_remove (all_list_tag task))
  set_nums dec
  main ← get_main
  if not (task == main) then on_links (list_append task_pool_list (pool_tag task)) else pure tt
  r ← get_task task
  release_tid rounds r.tid
  interrupt_enable
  died_task_schedule

-- `call` says what the function at an address does with an argument.
unfoldable pub task_entrance :
    (call : (function func_arg : ℕ) → Cmd Store Unit₀) (rounds function func_arg : ℕ)
    → Cmd Store Unit₀
task_entrance call rounds function func_arg = do
  call function func_arg
  current ← get_current
  task_exit rounds current

-- `a == b` on integers
abbrev pub same_int : ℤ → ℤ → Bool
same_int (pos a) (pos b) = a == b
same_int (negsuc a) (negsuc b) = a == b
same_int (pos a) (negsuc b) = false
same_int (negsuc a) (pos b) = false

-- The callback reads the tasks of the store.
abbrev pub tid_check : (Ptr → Task) → Ptr → ℤ → Bool
tid_check tasks pelem tid = same_int (tasks (elem2entry all_list_tag_offset pelem)).tid tid

unfoldable pub tid2task : ℕ → ℤ → Cmd Store Ptr
tid2task rounds tid s =
    (do
      pelem ← on_links (list_traversal rounds task_all_list (tid_check s.task) tid)
      if pelem == null then pure null else pure (elem2entry all_list_tag_offset pelem))
      s

-- the end of `init_task`: the tid, the stack and the numbers; a priority is cut to 8 bits
unfoldable pub fill_task : ℕ → (ptask : Ptr) (prio : ℤ) → Cmd Store Unit₀
fill_task rounds ptask prio = do
  tid ← allocate_tid rounds
  modify_task ptask (λ r. record r { tid = tid })
  stack_min_addr ← malloc
  modify_task ptask (λ r. record r { stack_min_addr = stack_min_addr })
  modify_task ptask (λ r. record r { task_stack = stack_min_addr + task_stack_size })
  modify_task ptask (λ r. record r { priority = to_uint32 prio % 256 })
  modify_task ptask (λ r. record r { ticks = to_uint32 prio % 256 })
  modify_task ptask (λ r. record r { elapsed_ticks = 0 })
  modify_task ptask (λ r. record r { stack_magic = 0x19991120 })
  modify_task ptask (λ r. record r { sleep_millisecond = 0 })
  modify_task ptask (λ r. record r { is_hook = false })
  modify_task ptask (λ r. record r { is_collaborative_schedule = false })

-- `strcpy` of a name that does not fit overruns the field.
unfoldable pub init_task : ℕ → (ptask : Ptr) (name : List ℕ) (prio : ℤ) → Cmd Store Unit₀
init_task rounds ptask name prio = do
  zero_struct ptask
  if ltb (length name) name_size
      then modify_task ptask (λ r. record r { name = name })
      else (λ _. fault)
  main ← get_main
  if ptask == main
      then (do
        set_status task_running ptask
        modify_task ptask (λ r. record r { first = false })
        set_current ptask)
      else (do set_status task_ready ptask; modify_task ptask (λ r. record r { first = true }))
  fill_task rounds ptask prio

-- `entrance` is the address of `task_entrance`. `get_reg` stores the segment registers.
unfoldable pub task_create : (entrance : ℕ) (ptask : Ptr) (function func_arg : ℕ) → Cmd Store Unit₀
task_create entrance ptask function func_arg = do
  modify_task ptask (λ r. record r { context = zero_context })
  modify_task ptask
      (λ r. record r { context = record r.context { rsp = r.task_stack; rbp = r.task_stack } })
  (λ s.
      modify_task ptask (λ r. record r { context = record r.context { segments = s.cpu.segments } })
        s)
  modify_task ptask (λ r. record r { context = record r.context { rip = entrance } })
  modify_task ptask (λ r. record r { context = record r.context { rdi = function } })
  modify_task ptask (λ r. record r { context = record r.context { rsi = func_arg } })

-- a structure for a new task: one of the pool, or a new one
unfoldable pub take_struct : Cmd Store Ptr
take_struct = do
  empty ← on_links (list_empty task_pool_list)
  if not empty
      then (do
        task_tag ← on_links (list_pop task_pool_list)
        r ← get_task (elem2entry pool_tag_offset task_tag)
        assert (not (task_died =ₛ r.status))
        pure (elem2entry pool_tag_offset task_tag))
      else malloc

-- a task joins the list of all tasks
unfoldable pub join_all : ℕ → Ptr → Cmd Store Unit₀
join_all rounds task = do
  found ← on_links (elem_find rounds task_all_list (all_list_tag task))
  assert (not found)
  on_links (list_append task_all_list (all_list_tag task))
  set_nums inc

unfoldable pub task_start :
    (rounds entrance : ℕ) (name : List ℕ) (prio : ℤ) (function func_arg : ℕ) → Cmd Store Ptr
task_start rounds entrance name prio function func_arg = do
  interrupt_disable
  task ← take_struct
  init_task rounds task name prio
  task_create entrance task function func_arg
  found ← on_links (elem_find rounds task_ready_list (general_tag task))
  assert (not found)
  on_links (list_append task_ready_list (general_tag task))
  join_all rounds task
  interrupt_enable
  pure task

-- the characters of "main"
abbrev pub main_name : List ℕ
main_name = 109 ∷ 97 ∷ 105 ∷ 110 ∷ []

unfoldable pub make_main_task : ℕ → Cmd Store Unit₀
make_main_task rounds = do
  main ← malloc
  (λ s. ok tt (record s { main_task = main }))
  init_task rounds main main_name (pos 3)
  join_all rounds main

unfoldable pub task_init : ℕ → (tid_bitmap_bits : List ℕ) → Cmd Store Unit₀
task_init rounds tid_bitmap_bits = do
  on_links (list_init task_ready_list)
  on_links (list_init task_all_list)
  on_links (list_init task_pool_list)
  set_nums (λ _. pos 0)
  tid_pool_init tid_bitmap_bits
  make_main_task rounds

-- `free`, which the memory of the model does not see
abbrev free : Ptr → Cmd Store Unit₀
free p = pure tt

-- one round of the loop of `clean_dead_task`
unfoldable pub clean_loop : ℕ → (clean_cnt : ℤ) → Cmd Store Unit₀
clean_loop zero clean_cnt = λ _. out_of_fuel
clean_loop (suc k) clean_cnt = do
  empty ← on_links (list_empty task_pool_list)
  if empty || same_int clean_cnt (pos 0)
      then (do
        task_tag ← on_links (list_pop task_pool_list)
        r ← get_task (elem2entry pool_tag_offset task_tag)
        free r.stack_min_addr
        free (elem2entry pool_tag_offset task_tag)
        clean_loop k (dec clean_cnt))
      else pure tt

-- the quotient of an `int` by 8, which rounds to 0
abbrev div8 : ℤ → ℤ
div8 (pos n) = pos (n / 8)
div8 (negsuc n) = if (n + 1) / 8 == 0 then pos 0 else negsuc ((n + 1) / 8 - 1)

abbrev pub clean_count : ℤ → ℤ
clean_count (pos n) = if ltb 16 (n / 8) then pos 16 else pos (n / 8)
clean_count (negsuc n) = div8 (negsuc n)

unfoldable pub clean_dead_task : ℕ → Cmd Store Unit₀
clean_dead_task rounds = do
  empty ← on_links (list_empty task_pool_list)
  if empty then pure tt else (λ s. clean_loop rounds (clean_count s.task_all_nums) s)
