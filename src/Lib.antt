-- ===== src/Lib.antt =====
-- LUTF, a library of user-level threads for Linux: tasks with their own stacks run in one process,
-- a clock signal (SIGALRM) preempts them in turn, and they block on semaphores and locks.
--
-- The parts, and the files that model them:
--   * Intrusive lists (src/lib/list.c, src/include/list.h): Lists.antt, with a node as an address in two maps
--     `next` and `prev`. The ready tasks and the waiters of a lock are such lists.
--   * Bitmaps (src/lib/bitmap.c, src/include/bitmap.h): Bitmap.antt, an array of bytes with a declared length.
--     A bitmap says which tids are in use.
--   * The memory of the library (src/include/task.h, src/include/sync.h, and the globals of src/task/task.c):
--     Store.antt, with the tasks and the locks at their addresses. The mask of SIGALRM
--     (src/interrupt/analog_interrupt.c) is a flag of it.
--   * The scheduler (src/task/task.c): Tasks.antt. `schedule` is what the clock calls, and `task_block`
--     and `task_unblock` are what the semaphores call.
--   * Semaphores and locks (src/task/sync.c): Sync.antt. Sync/Steps.antt has `lock_acquire` and `lock_release`
--     in steps, between which the clock can come: a `++` or `--` is a reading and a writing, another statement is
--     one step, and so is to wake a task, where SIGALRM is held back. To queue up and block is one step, or parts
--     that do anything but change the lock.
--     Sync/Steps/System.antt has the tasks that share a lock, interleaved, with the phases at which the clock may come.
--   * Tids (src/task/task.c): Tids.antt, the bits of a bitmap under a lock.
--   * The creation, the end and the recycling of tasks (src/task/task.c): Life.antt. A task that ends joins
--     a pool, from which `task_start` takes its structures. Life/World.antt has the histories of tasks: they
--     start while the pool is empty, end, and are preempted, in any order. The clock comes between complete calls there,
--     though `task_start` and `task_exit` let SIGALRM through inside (giving back the lock of the tids).
--     Life/World/Buried.antt has the pool in them. Life/Begin.antt has `task_init`.
--   * The I/O queue (src/device/ioqueue.c): IoQueue.antt, a ring of 64 slots beside the memory of the
--     library. Its loops, which wait with `task_block`, take at most `k` rounds.
--     IoQueue/Handover.antt follows a character to a consumer that sleeps.
--   * Timers (src/interrupt/timer.c, src/include/timer.h): Timers.antt, the circular lists and the five wheels
--     (Timers/Wheels.antt), and `run_timer` with what makes and deletes timers (Timers/Run.antt), beside the
--     memory of the library. Timers/Spec.antt is a machine on the sequences of timers of the slots.
--   * The clock interrupt (src/interrupt/timer.c): Interrupt.antt. It runs the timers, then preempts the running
--     task or puts it to sleep with a timer that wakes it.
--   * The hooks of system calls (src/hook.c): Hook.antt, with a table of what is known of each descriptor. A
--     function of the C library is a parameter.
--   * The console (src/device/console.c): Console.antt, output under a lock.
--   * The start of the library (src/task/init.c, src/include/set_ticker.h, `interrupt_init`): Boot.antt.
-- Functions keep their names. Base.antt holds shared helpers, Samples.antt small memories for the
-- tests; the child modules hold the proofs.
--
-- A function of the source is a command on its memory, with one of these results (Base/Outcome.antt):
-- `ok` with the value and the memory, `fault` for undefined behaviour (a read or write through NULL
-- or past an array), `spin` for an infinite loop of the source (a failed assertion is one),
-- `switched` when the processor has gone to another task and the call goes on later, and
-- `out_of_fuel`.
--
-- A list's sentinels are at its address and the next one, and the nodes of a task at 1, 2 and 3
-- behind its own; tasks are at multiples of 4 from 100 on, locks below. The addresses stand for those of
-- the C objects: all that the code relies on is that the nodes are different and not NULL.
--
-- The manager of the timers is at one address with its 512 heads behind it, timers lie behind those, and the
-- two heads that functions keep on the stack are at 1 and 2. The memory of these nodes is apart from
-- that of the lists. Callbacks are a parameter that changes the memory of the library: one that makes
-- or deletes timers itself is not modelled.
--
-- Bounds and fuel: loops over lists take at most `rounds` rounds, and the theorems ask that `rounds`
-- exceeds the number of elements, which is enough. The loops of `bitmap_scan` have one round more than
-- the bitmap has bytes, and nine for the bits of a byte. `run_timer` runs at
-- most `k` milliseconds, which is enough if `k` exceeds their number. Values of w bits wrap at 2^w.
--
-- A switch copies a whole register set (`Context`), in place of the assembly files and of memcpy on
-- the signal's frame. A task that was switched away goes on where its call stopped: after `task_block`
-- in `sema_down`, that is at the test of the loop, `sema_down_loop`.
--
-- `malloc` returns the next address of a supply that the memory holds, and NULL when it is empty; `free`
-- changes nothing. Fields that nothing reads are left out, and the counter of tasks does not wrap.
--
-- A task that sleeps loops until the clock signal has changed its memory, which ends in `spin` here; the
-- interrupt goes on from that memory.
--
-- Not modelled: `print_task_info`, which prints; `main` and the examples, which are demonstrations; callbacks
-- of timers that make or delete timers themselves; a clock signal inside a change of a list, but for that of
-- the tasks that wait for a lock, inside `task_start` or inside `task_exit`; and the assembly files.
pub mod Base
pub mod Lists
pub mod Bitmap
pub mod Store
pub mod Tasks
pub mod Sync
pub mod Tids
pub mod Life
pub mod IoQueue
pub mod Timers
pub mod Interrupt
pub mod Hook
pub mod Console
pub mod Boot
pub mod Samples
