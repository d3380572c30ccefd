-- ===== src/Boot.antt =====
-- The start of the library: src/task/init.c, `interrupt_init` of src/interrupt/analog_interrupt.c, and
-- src/include/set_ticker.h. What the system does is a parameter.
use lutf.Base.{
  ℕ, ◌+◌, ◌*◌, ◌/◌, ◌%◌, ◌≡◌, arith, if◌then◌else◌, List, Cmd, Unit₀, ok, pure, spin, run_on, ◌>>=◌,
  ◌>>◌,
}
use lutf.Base.Int.{ℤ, negsuc}
use lutf.Console.{Screen, console_init}
use lutf.Life.{task_init, same_int}
use lutf.Timers.Run.{timer_init}
use lutf.Timers.Wheels.{Clock, on_store}

-- `struct itimerval`
pub record Itimerval : Type 0 where
  pub interval_sec : ℕ
  pub interval_usec : ℕ
  pub value_sec : ℕ
  pub value_usec : ℕ

-- the interval of the clock signal, `n_msecs` milliseconds
unfoldable pub new_timeset : ℕ → Itimerval
new_timeset n_msecs = record {
  interval_sec = n_msecs / 1000;
  interval_usec = n_msecs % 1000 * 1000;
  value_sec = n_msecs / 1000;
  value_usec = n_msecs % 1000 * 1000;
}

-- The memory of the library with the timers, and what the system works on.
pub record Machine (W : Type 0) : Type 0 where
  pub clock : Clock
  pub world : W

abbrev on_clock : {W A : Type 0} → Cmd Clock A → Cmd (Machine W) A
on_clock = run_on (λ m. m.clock) (λ c m. record m { clock = c })

abbrev on_screen : {W A : Type 0} → Cmd (Screen W) A → Cmd (Machine W) A
on_screen =
    run_on (λ m. record { store = m.clock.store; world = m.world })
      (λ c m. record m { clock = record m.clock { store = c.store }; world = c.world })

module _ {W : Type 0} (os_setitimer : Itimerval → W → ℤ × W) (os_signal : W → W) where
  unfoldable pub set_ticker : ℕ → Cmd (Machine W) ℤ
  set_ticker n_msecs m =
      let (r, w) = os_setitimer (new_timeset n_msecs) m.world in ok r (record m { world = w })

  -- `panic` prints and loops. `clock_granularity` is 10 before, too.
  unfoldable pub interrupt_init : Cmd (Machine W) Unit₀
  interrupt_init = do
    (λ m. ok tt (record m { world = os_signal m.world }))
    r ← set_ticker 10
    if same_int r (negsuc 0) then (λ m. spin m) else pure tt

  unfoldable pub init :
      (os_ioctl : (fd fionbio_attr : ℕ) → W → W) (rounds : ℕ) (tid_bitmap_bits : List ℕ)
      (clean_dead_task tv_sec tv_nsec : ℕ)
      → Cmd (Machine W) Unit₀
  init os_ioctl rounds tid_bitmap_bits clean_dead_task tv_sec tv_nsec = do
    on_screen (console_init os_ioctl)
    on_clock (on_store (task_init rounds tid_bitmap_bits))
    on_clock (timer_init rounds clean_dead_task tv_sec tv_nsec)
    interrupt_init

-- The interval and the first time are `n_msecs` milliseconds.
new_timeset_lem :
    (n_msecs : ℕ)
    → ((new_timeset n_msecs).interval_sec * 1000000 + (new_timeset n_msecs).interval_usec
        ≡ n_msecs * 1000)
      × ((new_timeset n_msecs).value_sec * 1000000 + (new_timeset n_msecs).value_usec
          ≡ n_msecs * 1000)
unfolding new_timeset
new_timeset_lem n_msecs = (omega arith, omega arith)
