-- ===== src/Timers/Refine.antt =====
-- `run_timer` does what the machine of Timers/Spec.antt does, whatever the callbacks do to the memory
-- of the library.
use mathlib.Core.Path.{subst}
use lutf.Base.{
  ℕ, zero, suc, ◌+◌, ◌-◌, ◌%◌, ◌^◌, ◌<◌, ◌≡◌, refl, ◌==◌, false, leb, List, [], ◌∷◌, arith, Cmd,
  Run, Unit₀, ok, fault, spin, switched, out_of_fuel, put_back, and_then, ◌>>◌, Returns-eq, length,
  sym, ◌∙◌, ap, Bool-cases, inl, inr, ==_self,
}
use lutf.Lists.{Ptr, Links, get_next}
use lutf.Lists.Chain.{front}
use lutf.Store.{Store}
use lutf.Timers.Cascade.{
  clear, Pending, Pending-drop, Pending-put, Pending-IsFree, next-Pending, detach-Pending,
  add_timer-eq, Pending-end,
}
use lutf.Timers.Levels.{cascaded, cascade-cascaded, slot-le}
use lutf.Timers.Run.{
  Callbacks, renew, expire, expire_from, detach_expired, next_jiffy, run_tick, run_from,
}
use lutf.Timers.Slots.{IsWheel, put, slot-IsHead}
use lutf.Timers.Spec.{
  Timing, renewed, renew_timer, expire_all, tick, run_ticks, run_until, run_until-run_ticks,
  Matches, both_return, both_fault, both_spin, both_switch, both_stop, Matches-bind, Shows,
}
use lutf.Timers.Wheels.{Clock, slot, list_tmr_expire}

-- the clock of an abstract state
abbrev pub clock_of : Clock → Links → Timing → Clock
clock_of c₀ l a = record c₀ { wheel = l; store = a.store; node = a.node; u_jiffies = a.u_jiffies }

clock_of-Shows :
    (c₀ : Clock) (ts : List Ptr) (l : Links) (a : Timing)
    → IsWheel l c₀.timer_manager ts a.slots
    → Shows c₀ ts (clock_of c₀ l a) a
clock_of-Shows c₀ ts l a w = record { wheel = w; same = refl }

-- A call that takes the same time for both: it returns, or both runs end with it.
call-Matches :
    (c₀ : Clock) (ts : List Ptr) (l : Links) (a : Timing) (r : Run Store Unit₀)
    (k k₂ : Cmd Clock Unit₀) (k' k₂' : Cmd Timing Unit₀)
    → IsWheel l c₀.timer_manager ts a.slots
    → ((s : Store)
        → Matches
            (Shows c₀ ts)
            ((k >> k₂) (clock_of c₀ l (record a { store = s })))
            ((k' >> k₂') (record a { store = s })))
    → Matches
        (Shows c₀ ts)
        (and_then
          (and_then (put_back (λ s c. record c { store = s }) (clock_of c₀ l a) r) (λ _. k))
          (λ _. k₂))
        (and_then (and_then (put_back (λ s t. record t { store = s }) a r) (λ _. k')) (λ _. k₂'))
call-Matches c₀ ts l a (ok x s) k k₂ k' k₂' w next = next s
call-Matches c₀ ts l a fault k k₂ k' k₂' w next = both_fault
call-Matches c₀ ts l a (spin s) k k₂ k' k₂' w next = both_spin (record { wheel = w; same = refl })
call-Matches c₀ ts l a (switched s) k k₂ k' k₂' w next =
    both_switch (record { wheel = w; same = refl })
call-Matches c₀ ts l a out_of_fuel k k₂ k' k₂' w next = both_stop

renew-eq :
    (c₀ : Clock) (ts : List Ptr) (l : Links) (a : Timing) (z : Ptr) (zs : List Ptr)
    → IsWheel l c₀.timer_manager ts a.slots
    → Pending l c₀.timer_manager ts a.slots list_tmr_expire (z ∷ zs)
    → (l' : Links) × (a' : Timing) × (renew z (clock_of c₀ l a) ≡ ok tt (clock_of c₀ l' a'))
      × (renew_timer c₀.timer_manager z a ≡ ok tt a')
      × IsWheel l' c₀.timer_manager ts a'.slots
      × Pending l' c₀.timer_manager ts a'.slots list_tmr_expire zs
unfolding renew
renew-eq c₀ ts l a z zs w p = elim (Bool-cases ((a.node z).u_period == 0)) [
  | inl once ↦ (l, a, rw once refl, rw once refl, w, Pending-drop list_tmr_expire z zs p)
  | inr again ↦
      let m = c₀.timer_manager in
      let t = (a.u_jiffies + (a.node z).u_period) % 2 ^ 32 in
      let (l', eq, w', same) =
        add_timer-eq (clock_of c₀ l (renewed a.u_jiffies z a)) ts a.slots z w
          (Pending-IsFree list_tmr_expire z zs p) in
      (
        l',
        record (renewed a.u_jiffies z a) { slots = put a.slots (slot m a.u_jiffies t) z },
        rw (again, eq) refl,
        rw again refl,
        rw ==_self at w',
        Pending-put list_tmr_expire (slot m a.u_jiffies t) z zs p (slot-IsHead m a.u_jiffies t)
            (rw ==_self at same),
      )
]

expire_from-Matches :
    (call : Callbacks) (c₀ : Clock) (ts : List Ptr) (k : ℕ) (l : Links) (a : Timing) (zs : List Ptr)
    → IsWheel l c₀.timer_manager ts a.slots
    → Pending l c₀.timer_manager ts a.slots list_tmr_expire zs
    → length zs < k
    → Matches
        (Shows c₀ ts)
        (expire_from call k (front zs list_tmr_expire) (clock_of c₀ l a))
        (expire_all call c₀.timer_manager zs a)
unfolding expire_from expire_all expire
expire_from-Matches call c₀ ts zero l a zs w p lt = absurd (omega arith)
expire_from-Matches call c₀ ts (suc k) l a [] w p lt = both_return (clock_of-Shows c₀ ts l a w)
expire_from-Matches call c₀ ts (suc k) l a (z ∷ zs) w p lt =
    let going : (z == list_tmr_expire) ≡ false =
      ground (arith, Pending-end p, (Pending-IsFree list_tmr_expire z zs p).behind) in
    rw (going, next-Pending list_tmr_expire z zs p)
      (call-Matches c₀ ts l a (call (a.node z).timer_fn (a.node z).p_param a.store) (renew z)
        (expire_from call k (front zs list_tmr_expire)) (renew_timer c₀.timer_manager z)
        (expire_all call c₀.timer_manager zs) w
        λ s.
          let (l', a', eq, eq', w', p') = renew-eq c₀ ts l (record a { store = s }) z zs w p in
          rw (eq, eq') (expire_from-Matches call c₀ ts k l' a' zs w' p' (omega arith)))

tick-Matches :
    (call : Callbacks) (c₀ : Clock) (ts : List Ptr) (l : Links) (a : Timing) (rounds : ℕ)
    → IsWheel l c₀.timer_manager ts a.slots
    → length ts < rounds
    → Matches (Shows c₀ ts) (run_tick call rounds (clock_of c₀ l a)) (tick call c₀.timer_manager a)
unfolding run_tick tick detach_expired next_jiffy get_next
tick-Matches call c₀ ts l a rounds w lt =
    let m = c₀.timer_manager in
    let f = cascaded m a.u_jiffies a.node a.slots in
    let h = m + 1 + a.u_jiffies % 256 in
    let (_, c₁, eq, (w₁, same)) =
      Returns-eq (cascade-cascaded rounds (clock_of c₀ l a) ts a.slots w lt) in
    let (_, l₂, out, (w₂, p, first)) =
      Returns-eq (
        detach-Pending h list_tmr_expire w₁ (omega arith) (omega arith) (omega (arith, w.place))) in
    rw (eq, same, out, first)
      (Matches-bind
        (expire_from-Matches call c₀ ts rounds l₂ (record a { slots = clear f h }) (f h) w₂ p
          (omega (arith, slot-le h w₁ (omega arith))))
        λ _ c' a' s. both_return (record {
          wheel = s.wheel;
          same = ap (λ (x : Clock). record x { u_jiffies = (x.u_jiffies + 1) % 2 ^ 32 }) s.same;
        }))

-- One round of the loop of `run_timer` does what `tick` does: it cascades the wheels, runs the timers
-- in the slot of its time in their order, puts the periodic ones into their next slots, and counts the
-- time one up. Where a callback does not return, both end with it. `rounds` exceeds the number of
-- timers.
pub run_tick-tick :
    (call : Callbacks) (c₀ c : Clock) (ts : List Ptr) (a : Timing) (rounds : ℕ)
    → Shows c₀ ts c a
    → length ts < rounds
    → Matches (Shows c₀ ts) (run_tick call rounds c) (tick call c₀.timer_manager a)
run_tick-tick call c₀ c ts a rounds shows lt =
    subst (λ x. Matches (Shows c₀ ts) (run_tick call rounds x) (tick call c₀.timer_manager a))
      (sym shows.same) (tick-Matches call c₀ ts c.wheel a rounds shows.wheel lt)

pub run_from-run_until :
    (call : Callbacks) (c₀ c : Clock) (ts : List Ptr) (a : Timing) (k rounds now : ℕ)
    → Shows c₀ ts c a
    → length ts < rounds
    → Matches (Shows c₀ ts) (run_from call k rounds now c) (run_until call c₀.timer_manager k now a)
unfolding run_from run_until
run_from-run_until call c₀ c ts a zero rounds now shows lt = both_stop
run_from-run_until call c₀ c ts a (suc k) rounds now shows lt =
    let time : c.u_jiffies ≡ a.u_jiffies = ap (λ (x : Clock). x.u_jiffies) shows.same in
    let test : leb c.u_jiffies now ≡ leb a.u_jiffies now = ap (λ j. leb j now) time in
    elim (Bool-cases (leb a.u_jiffies now)) [
      | inl e ↦
          rw (test ∙ e, e)
            (Matches-bind (run_tick-tick call c₀ c ts a rounds shows lt)
              λ _ c' a' s. run_from-run_until call c₀ c' ts a' k rounds now s lt)
      | inr n ↦ rw (test ∙ n, n) (both_return shows)
    ]

-- The loop of `run_timer` runs every millisecond from the time of the manager to `now`, each as `tick`
-- does, if `now` is below 2^32 - 1. `rounds` exceeds the number of timers, and `k` that of milliseconds.
pub run_from-run_ticks :
    (call : Callbacks) (c₀ c : Clock) (ts : List Ptr) (a : Timing) (k rounds now n : ℕ)
    → Shows c₀ ts c a
    → length ts < rounds
    → now < 2 ^ 32 - 1
    → a.u_jiffies + n ≡ now + 1
    → n < k
    → Matches (Shows c₀ ts) (run_from call k rounds now c) (run_ticks call c₀.timer_manager n a)
run_from-run_ticks call c₀ c ts a k rounds now n shows lt small e enough =
    rw (run_until-run_ticks call c₀.timer_manager k now n a small e enough) at
      (run_from-run_until call c₀ c ts a k rounds now shows lt)
