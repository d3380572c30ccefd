-- ===== src/Store.antt =====
-- The memory of the library: the structures of src/include/task.h and src/include/sync.h, the
-- globals of src/task/task.c, and the signal mask.
pub mod Access
use lutf.Base.{ℕ, ◌+◌, ◌-◌, ◌*◌, Bool, List, ◌==◌}
use lutf.Base.Int.{ℤ}
use lutf.Bitmap.{Bitmap}
use lutf.Lists.{Ptr, Links}

-- `enum task_status`
pub data TaskStatus : Type 0 where
  task_running task_ready task_blocked task_died task_waiting task_hanging : TaskStatus

-- the enumerators' values, by which statuses are compared
abbrev pub status_code : TaskStatus → ℕ
status_code task_running = 0
status_code task_ready = 1
status_code task_blocked = 2
status_code task_died = 3
status_code task_waiting = 4
status_code task_hanging = 5

infix 50 ◌=ₛ◌
abbrev pub ◌=ₛ◌ : TaskStatus → TaskStatus → Bool
a =ₛ b = status_code a == status_code b

-- The registers of `struct sigcontext` that a task is created with or that name where it runs; `rest`
-- stands for the contents of the others.
pub record Context : Type 0 where
  pub rip : ℕ
  pub rsp : ℕ
  pub rbp : ℕ
  pub rdi : ℕ
  pub rsi : ℕ
  pub segments : ℕ
  pub rest : ℕ

-- `struct task_struct`, but for its three list nodes, which lie in `Links`, and for the fields that
-- nothing uses (`env`, `function`, `func_args`)
pub record Task : Type 0 where
  pub task_stack : ℕ
  pub stack_min_addr : Ptr
  pub context : Context
  pub tid : ℤ
  pub status : TaskStatus
  pub name : List ℕ
  pub priority : ℕ
  pub ticks : ℕ
  pub elapsed_ticks : ℕ
  pub stack_magic : ℕ
  pub sleep_millisecond : ℕ
  pub first : Bool
  pub is_hook : Bool
  pub is_collaborative_schedule : Bool

-- The list nodes in the structure at `t`; addresses count in units of a node.
abbrev pub general_tag : Ptr → Ptr
general_tag t = t + 1

abbrev pub all_list_tag : Ptr → Ptr
all_list_tag t = t + 2

abbrev pub pool_tag : Ptr → Ptr
pool_tag t = t + 3

-- `elem2entry (struct task_struct, member, elem_ptr)`, the offset of the member given
abbrev pub elem2entry : (offset elem_ptr : ℕ) → Ptr
elem2entry offset elem_ptr = elem_ptr - offset

abbrev pub general_tag_offset : ℕ
general_tag_offset = 1

abbrev pub all_list_tag_offset : ℕ
all_list_tag_offset = 2

abbrev pub pool_tag_offset : ℕ
pool_tag_offset = 3

-- `struct lock` and the `struct semaphore` in it. The list of waiters of the semaphore of the lock
-- at `p` has its sentinels at `p` and `p + 1`.
pub record Lock : Type 0 where
  pub holder : Ptr
  pub value : ℕ
  pub holder_repeat_nr : ℕ

-- the addresses of the global lists and locks
abbrev pub task_ready_list : Ptr
task_ready_list = 2

abbrev pub task_all_list : Ptr
task_all_list = 4

abbrev pub task_pool_list : Ptr
task_pool_list = 6

abbrev pub tid_lock : Ptr
tid_lock = 8

-- `cpu` holds the registers of the task that runs: in a signal handler the `struct sigcontext` of
-- the signal's frame, elsewhere the processor's. `supply` holds what `malloc` will return, NULL
-- when it is empty. `unmasked` says that SIGALRM is not blocked.
pub record Store : Type 0 where
  pub links : Links
  pub task : Ptr → Task
  pub lock : Ptr → Lock
  pub main_task : Ptr
  pub current_task : Ptr
  pub task_all_nums : ℤ
  pub tid_start : ℕ
  pub tid_bitmap : Bitmap
  pub cpu : Context
  pub supply : List ℕ
  pub unmasked : Bool
