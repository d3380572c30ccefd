-- ===== src/Timers/Locked.antt =====
-- `run_timer`, with its lock, and the functions that make and delete timers.
use mathlib.Core.Path.{subst}
use lutf.Base.{
  ℕ, ◌+◌, ◌-◌, ◌^◌, ◌<◌, ◌≡◌, refl, ◌==◌, false, List, arith, Cmd, Run, Unit₀, ok, fault, spin,
  switched, out_of_fuel, put_back, and_then, length, sym, ◌∙◌, ap, IfReturns-same,
}
use lutf.Lists.{Ptr, null, Links}
use lutf.Store.{Store}
use lutf.Sync.{lock_acquire, lock_release}
use lutf.Timers.Refine.{run_from-run_until, clock_of}
use lutf.Timers.Run.{Callbacks, run_timer}
use lutf.Timers.Slots.{IsWheel}
use lutf.Timers.Spec.{
  Timing, run_until-run_ticks, on_time, on_time-time, locked_ticks, Matches, both_return,
  both_fault, both_spin, both_switch, both_stop, Matches-bind, Shows,
}
use lutf.Timers.Wheels.{Clock, on_store, get_jiffies}

put-Matches :
    (c₀ : Clock) (ts : List Ptr) (l : Links) (a : Timing) (r : Run Store Unit₀)
    → IsWheel l c₀.timer_manager ts a.slots
    → Matches
        (Shows c₀ ts)
        (put_back (λ s c. record c { store = s }) (clock_of c₀ l a) r)
        (put_back (λ s t. record t { store = s }) a r)
put-Matches c₀ ts l a (ok x s) w = both_return (record { wheel = w; same = refl })
put-Matches c₀ ts l a fault w = both_fault
put-Matches c₀ ts l a (spin s) w = both_spin (record { wheel = w; same = refl })
put-Matches c₀ ts l a (switched s) w = both_switch (record { wheel = w; same = refl })
put-Matches c₀ ts l a out_of_fuel w = both_stop

store-Matches :
    (c₀ c : Clock) (ts : List Ptr) (a : Timing) (cmd : Cmd Store Unit₀)
    → Shows c₀ ts c a
    → Matches (Shows c₀ ts) (on_store cmd c) (on_time cmd a)
store-Matches c₀ c ts a cmd shows =
    subst (λ x. Matches (Shows c₀ ts) (on_store cmd x) (on_time cmd a)) (sym shows.same)
      (put-Matches c₀ ts c.wheel a (cmd a.store) shows.wheel)

clock_of-run_timer :
    (call : Callbacks) (c₀ : Clock) (ts : List Ptr) (l : Links) (a : Timing)
    (k rounds tv_sec tv_nsec n : ℕ)
    → IsWheel l c₀.timer_manager ts a.slots
    → length ts < rounds
    → get_jiffies tv_sec tv_nsec < 2 ^ 32 - 1
    → a.u_jiffies + n ≡ get_jiffies tv_sec tv_nsec + 1
    → n < k
    → Matches
        (Shows c₀ ts)
        (run_timer call k rounds tv_sec tv_nsec (clock_of c₀ l a))
        (locked_ticks call c₀.timer_manager c₀.lock rounds n a)
unfolding run_timer
clock_of-run_timer call c₀ ts l a k rounds tv_sec tv_nsec n w lt small e enough =
    let now = get_jiffies tv_sec tv_nsec in
    let m = c₀.timer_manager in
    let there : (m == null) ≡ false = ground (arith, w.place) in
    rw there (
      subst (Matches (Shows c₀ ts) _)
        (IfReturns-same (on_time-time (lock_acquire rounds c₀.lock) a) λ _ a' time.
          ap (λ r. and_then r (λ _. on_time (lock_release rounds c₀.lock)))
            (run_until-run_ticks call m k now n a' small (ap (λ j. j + n) time ∙ e) enough))
        (Matches-bind (put-Matches c₀ ts l a (lock_acquire rounds c₀.lock a.store) w) λ _ c' a' s.
          Matches-bind (run_from-run_until call c₀ c' ts a' k rounds now s lt)
            λ _ c'' a'' s'. store-Matches c₀ c'' ts a'' (lock_release rounds c₀.lock) s'))

-- `run_timer` takes the lock of the manager, does what `run_ticks` does for every millisecond from the
-- time of the manager to the time of the clock, and gives the lock back, if the time of the clock is
-- below 2^32 - 1. Where the lock or a callback does not return, both end with it. `rounds` exceeds the
-- number of timers, and `k` that of milliseconds.
pub run_timer-locked_ticks :
    (call : Callbacks) (c₀ c : Clock) (ts : List Ptr) (a : Timing) (k rounds tv_sec tv_nsec n : ℕ)
    → Shows c₀ ts c a
    → length ts < rounds
    → get_jiffies tv_sec tv_nsec < 2 ^ 32 - 1
    → a.u_jiffies + n ≡ get_jiffies tv_sec tv_nsec + 1
    → n < k
    → Matches
        (Shows c₀ ts)
        (run_timer call k rounds tv_sec tv_nsec c)
        (locked_ticks call c₀.timer_manager c₀.lock rounds n a)
run_timer-locked_ticks call c₀ c ts a k rounds tv_sec tv_nsec n shows lt small e enough =
    subst
      (λ x.
        Matches (Shows c₀ ts) (run_timer call k rounds tv_sec tv_nsec x)
          (locked_ticks call c₀.timer_manager c₀.lock rounds n a))
      (sym shows.same)
      (clock_of-run_timer call c₀ ts c.wheel a k rounds tv_sec tv_nsec n shows.wheel lt small e
        enough)
