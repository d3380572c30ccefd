-- ===== src/Interrupt.antt =====
-- The clock interrupt of src/interrupt/timer.c: it counts time, runs the timers, and takes the processor from
-- the running task, or puts that task to sleep.
pub mod Wake
pub mod Sleeper
pub mod Samples
mod Tests
use lutf.Base.{
  ℕ, ◌+◌, ◌-◌, ◌%◌, ◌^◌, Bool, true, false, not, ◌&&◌, ◌==◌, if◌then◌else◌, Cmd, Unit₀, ok, pure,
  assert, ◌>>=◌, ◌>>◌,
}
use lutf.Lists.{Ptr, null, list_append, elem_find}
use lutf.Store.{Store, task_ready, general_tag, task_ready_list}
use lutf.Store.Access.{on_links, get_task, modify_task, get_current}
use lutf.Tasks.{set_status, schedule, collaborative_schedule}
use lutf.Timers.Run.{Callbacks, run_timer, create_timer, destroy_timer_manager}
use lutf.Timers.Wheels.{Clock, on_store}

-- The task whose sleep is over goes behind the ready ones.
unfoldable pub collaborative_schedule_helper : ℕ → (para : Ptr) → Cmd Store Unit₀
collaborative_schedule_helper rounds para = do
  found ← on_links (elem_find rounds task_ready_list (general_tag para))
  assert (not found)
  on_links (list_append task_ready_list (general_tag para))
  modify_task para (λ r. record r { ticks = r.priority })
  set_status task_ready para
  modify_task para (λ r. record r { is_collaborative_schedule = false })
  modify_task para (λ r. record r { sleep_millisecond = 0 })

-- The functions at addresses: `helper` is that of `collaborative_schedule_helper`, `others` says what
-- those at other addresses do.
abbrev pub library_calls : Callbacks → (rounds helper : ℕ) → Callbacks
library_calls others rounds helper timer_fn p_param =
    if timer_fn == helper
    then collaborative_schedule_helper rounds p_param
    else others timer_fn p_param

-- the counters of the running task and of the clock
unfoldable pub count_tick : Cmd Clock Unit₀
count_tick = do
  on_store (do
    current ← get_current
    r ← get_task current
    assert (r.stack_magic == 0x19991120)
    modify_task current (λ r. record r { elapsed_ticks = (r.elapsed_ticks + 1) % 2 ^ 32 }))
  (λ c. ok tt (record c { ticks = (c.ticks + 1) % 2 ^ 64 }))

-- The end of the handler: a task with no ticks left is preempted, one that is to sleep gets a timer and
-- leaves, and any other one has a tick less. `helper` is the address of `collaborative_schedule_helper`.
unfoldable pub end_of_slice : (rounds helper : ℕ) → Cmd Clock Unit₀
end_of_slice rounds helper = do
  current ← on_store get_current
  r ← on_store (get_task current)
  if not r.is_collaborative_schedule && r.ticks == 0
      then on_store (schedule rounds)
      else if not r.is_collaborative_schedule
      then on_store (modify_task current (λ r. record r { ticks = r.ticks - 1 }))
      else (do
        create_timer rounds helper current r.sleep_millisecond 0
        on_store collaborative_schedule)

module _ (call : Callbacks) (k rounds helper tv_sec tv_nsec : ℕ) where
  -- the timers run, or end
  unfoldable pub interrupt_timers : Cmd Clock Unit₀
  interrupt_timers c =
      (if not (c.timer_manager == null)
          then (if c.u_exit_flag == 0
              then run_timer call k rounds tv_sec tv_nsec
              else destroy_timer_manager rounds)
          else pure tt)
        c

  unfoldable pub interrupt_timer_handler : Cmd Clock Unit₀
  interrupt_timer_handler = do count_tick; interrupt_timers; end_of_slice rounds helper
