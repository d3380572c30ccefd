-- ===== src/Tasks.antt =====
-- The scheduler of src/task/task.c: which task runs next, and how a task is blocked and woken.
-- Loops over the ready list run `rounds` rounds at most.
pub mod Queue
pub mod Switch
pub mod Preempt
pub mod RoundRobin
pub mod Park
mod Tests
use lutf.Base.{
  ℕ, zero, suc, ◌+◌, ◌/◌, ◌%◌, Bool, true, false, not, ◌&&◌, ◌||◌, ◌==◌, ltb, if◌then◌else◌, Cmd,
  Unit₀, ok, fault, out_of_fuel, pure, assert, ◌>>=◌, ◌>>◌,
}
use lutf.Base.Int.{ℤ, pos, negsuc}
use lutf.Lists.{
  Ptr, null, tail, get_next, list_append, list_push, list_pop, list_remove, list_empty, elem_find,
}
use lutf.Store.{
  Store, Task, TaskStatus, task_running, task_ready, task_blocked, task_died, task_waiting,
  task_hanging, ◌=ₛ◌, Context, general_tag, elem2entry, general_tag_offset, all_list_tag_offset,
  task_ready_list, task_all_list,
}
use lutf.Store.Access.{
  on_links, get_task, modify_task, get_current, set_current, interrupt_disable, interrupt_enable,
  loop_forever, leave,
}

-- `memcpy(&task->context, context, ..)` and `memcpy(context, &task->context, ..)`
abbrev pub save_context : Ptr → Cmd Store Unit₀
save_context t s = modify_task t (λ r. record r { context = s.cpu }) s

abbrev pub set_cpu : Context → Cmd Store Unit₀
set_cpu c s = ok tt (record s { cpu = c })

abbrev pub load_context : Ptr → Cmd Store Unit₀
load_context t = do r ← get_task t; set_cpu r.context

abbrev pub set_status : TaskStatus → Ptr → Cmd Store Unit₀
set_status status t = modify_task t (λ r. record r { status = status })

-- a status that takes a task off the ready list
abbrev pub is_parked : TaskStatus → Bool
is_parked status = status =ₛ task_blocked || status =ₛ task_waiting || status =ₛ task_hanging

unfoldable pub get_next_task : Cmd Store Ptr
get_next_task = do
  task_tag ← on_links (list_pop task_ready_list)
  let next = elem2entry general_tag_offset task_tag
  set_status task_running next
  pure next

-- what `schedule` and `collaborative_schedule` do once the ready list is known not to be empty
unfoldable pub switch_to_next : Cmd Store Unit₀
unfolding get_next_task
switch_to_next = do
  next ← get_next_task
  current ← get_current
  save_context current
  set_current next
  load_context next

-- The running task becomes the last of the ready ones, and the first of them runs.
unfoldable pub schedule : ℕ → Cmd Store Unit₀
schedule rounds = do
  current ← get_current
  found ← on_links (elem_find rounds task_ready_list (general_tag current))
  assert (not found)
  on_links (list_append task_ready_list (general_tag current))
  modify_task current (λ r. record r { ticks = r.priority })
  set_status task_ready current
  empty ← on_links (list_empty task_ready_list)
  if empty then loop_forever else switch_to_next

-- The running task is not put on the ready list.
unfoldable pub collaborative_schedule : Cmd Store Unit₀
collaborative_schedule = do
  empty ← on_links (list_empty task_ready_list)
  if empty then loop_forever else switch_to_next

unfoldable pub died_task_schedule : Cmd Store Unit₀
died_task_schedule = do
  empty ← on_links (list_empty task_ready_list)
  if empty then loop_forever else do
    task_tag ← on_links (list_pop task_ready_list)
    let next = elem2entry general_tag_offset task_tag
    set_status task_running next
    set_current next
    load_context next
    leave

unfoldable pub block_task_schedule : Cmd Store Unit₀
block_task_schedule = do
  empty ← on_links (list_empty task_ready_list)
  if empty then loop_forever else do
    again ← on_links (list_empty task_ready_list)
    assert (not again)
    task_tag ← on_links (list_pop task_ready_list)
    let next = elem2entry general_tag_offset task_tag
    set_status task_running next
    temp ← get_current
    set_current next
    save_context temp
    load_context next
    leave

unfoldable pub task_block : TaskStatus → Cmd Store Unit₀
task_block status = do
  assert (is_parked status)
  current ← get_current
  set_status status current
  block_task_schedule

unfoldable pub task_unblock : ℕ → Ptr → Cmd Store Unit₀
task_unblock rounds ptask = do
  interrupt_disable
  r ← get_task ptask
  assert (is_parked r.status)
  if not (r.status =ₛ task_ready)
      then (do
        found ← on_links (elem_find rounds task_ready_list (general_tag ptask))
        assert (not found)
        on_links (list_push task_ready_list (general_tag ptask))
        set_status task_ready ptask)
      else pure tt
  interrupt_enable

-- `current_task && current_task->is_hook`
unfoldable pub current_is_hook : Cmd Store Bool
current_is_hook = do
  current ← get_current
  if current == null then pure false else (do r ← get_task current; pure r.is_hook)

-- `n > c` for an `int` `c`
abbrev exceeds : ℕ → ℤ → Bool
exceeds n (pos k) = ltb k n
exceeds n (negsuc k) = true

-- One round of the loop of `get_next_task_011` at the task `t`: the time slice of a task that waits
-- is renewed, and a ready task with a greater one than `c` is chosen. `c` is at first -1.
unfoldable pub weigh : Ptr → ℤ → Ptr → Cmd Store (ℤ × Ptr)
weigh t c next_task = do
  r ← get_task t
  if is_parked r.status || r.is_collaborative_schedule
      then modify_task t (λ r. record r { ticks = (r.ticks / 2 + r.priority) % 256 })
      else pure tt
  r' ← get_task t
  if r'.status =ₛ task_ready && exceeds r'.ticks c
      then pure (pos r'.ticks, t)
      else pure (c, next_task)

unfoldable pub next_011_from : ℕ → (elem : Ptr) (c : ℤ) (next_task : Ptr) → Cmd Store Ptr
next_011_from zero elem c next_task = λ _. out_of_fuel
next_011_from (suc k) elem c next_task = if elem == tail task_all_list then pure next_task else (do
  (c', next') ← weigh (elem2entry all_list_tag_offset elem) c next_task
  n ← on_links (get_next elem)
  next_011_from k n c' next')

-- `uninitialised` is the value that `next_task` has before the first assignment.
unfoldable pub get_next_task_011 : (uninitialised : Ptr) → ℕ → Cmd Store Ptr
get_next_task_011 uninitialised rounds = do
  elem ← on_links (get_next task_all_list)
  next_task ← next_011_from rounds elem (negsuc 0) uninitialised
  on_links (list_remove (general_tag next_task))
  set_status task_running next_task
  pure next_task
