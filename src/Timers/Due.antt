-- ===== src/Timers/Due.antt =====
-- When the loop of `run_timer` runs a timer that is alone in the wheels.
use mathlib.Core.Path.{subst}
use lutf.Base.{
  ℕ, zero, suc, ◌+◌, ◌-◌, ◌%◌, ◌^◌, ◌≤◌, ◌<◌, ◌≡◌, refl, List, [], arith, Run, Unit₀, ok, Returns,
  returns, mono, length, ◌∙◌, ap, ◌>>◌,
}
use lutf.Lists.{Ptr}
use lutf.Store.{Store}
use lutf.Timers.Expiry.{lone, lone-high, lone-other, lone-runs, tick-idle, slot-first, put-lone}
use lutf.Timers.Refine.{run_from-run_ticks}
use lutf.Timers.Run.{Callbacks, run_from}
use lutf.Timers.Slots.{IsWheel, put}
use lutf.Timers.Spec.{Timing, run_ticks, call_timer, advance, Shows, Matches, both_return}
use lutf.Timers.Wheels.{Clock, slot}

-- The loop has come to the time `j`: the memory of the library is `s`, the slots are `f`, and the rest,
-- the nodes of the timers too, is as in `c`.
pub record Ran (c : Clock) (ts : List Ptr) (s : Store) (j : ℕ) (f : Ptr → List Ptr) (c' : Clock)
    : Type 0 where
  pub wheel : IsWheel c'.wheel c.timer_manager ts f
  pub rest : c' ≡ record c { wheel = c'.wheel; store = s; u_jiffies = j }

-- the times, nodes and slots of a clock
abbrev pub timing : Clock → (Ptr → List Ptr) → Timing
timing c f = record { store = c.store; node = c.node; slots = f; u_jiffies = c.u_jiffies }

Matches-ok :
    {S T A : Type 0} {R : S → T → Type 0} {r : Run S A} {a : A} {t : T}
    → Matches R r (ok a t)
    → Returns (λ _ s. R s t) r
Matches-ok (both_return p) = returns p

pub Matches-Returns :
    {S T : Type 0} {R : S → T → Type 0} {r : Run S Unit₀} {r' : Run T Unit₀} {t : T}
    → Matches R r r'
    → r' ≡ ok tt t
    → Returns (λ _ s. R s t) r
Matches-Returns {R} {r} h e = Matches-ok (subst (Matches R r) e h)

-- milliseconds in which a lone timer is not due
lone-waits :
    (call : Callbacks) (m : Ptr) (a : Timing) (t z n d : ℕ)
    → a.slots ≡ lone m t z
    → n ≤ d
    → d < 256
    → (a.u_jiffies + d) % 256 ≡ t % 256
    → a.u_jiffies + d < 2 ^ 32
    → run_ticks call m n a ≡ ok tt (record a { u_jiffies = a.u_jiffies + n })
unfolding run_ticks
lone-waits call m a t z zero d alone le lt now small =
    let same : a.u_jiffies + 0 ≡ a.u_jiffies = omega arith in rw same refl
lone-waits call m a t z (suc n) d alone le lt now small =
    let other : a.slots (m + 1 + a.u_jiffies % 256) ≡ [] =
      ap (λ (f : Ptr → List Ptr). f (m + 1 + a.u_jiffies % 256)) alone
      ∙ lone-other m t z a.u_jiffies (ground arith) in
    let high : (k : Ptr) → m + 257 ≤ k → a.slots k ≡ [] =
      λ k le. ap (λ (f : Ptr → List Ptr). f k) alone ∙ lone-high m t z k le in
    rw (tick-idle call m a high other) (
      lone-waits call m (record a { u_jiffies = (a.u_jiffies + 1) % 2 ^ 32 }) t z n (d - 1) alone
        (omega arith) (omega arith) (omega arith) (omega arith)
      ∙ ap (λ j. ok tt (record a { u_jiffies = j })) (omega arith))

module _ (call : Callbacks) (c : Clock) (ts : List Ptr) (k rounds t z : ℕ) (f : Ptr → List Ptr)
    (alone : f ≡ lone c.timer_manager t z) (wheel : IsWheel c.wheel c.timer_manager ts f)
    (lt : length ts < rounds) (enough : 256 < k) where
  shown : Shows c ts c (timing c f)
  shown = record { wheel = wheel; same = refl }

  -- the loop runs the timer at the time whose slot is its own
  loop-fires :
      (d : ℕ) (s : Store)
      → (c.node z).u_period ≡ 0
      → d < 256
      → (c.u_jiffies + d) % 256 ≡ t % 256
      → c.u_jiffies + d < 2 ^ 32 - 1
      → call (c.node z).timer_fn (c.node z).p_param c.store ≡ ok tt s
      → Returns
          (λ _. Ran c ts s (c.u_jiffies + d + 1) (λ _. []))
          (run_from call k rounds (c.u_jiffies + d) c)
  loop-fires d s once near now small eq =
      let a = timing c f in
      let last : (call_timer call z >> advance)
            (record a { slots = λ _. []; u_jiffies = c.u_jiffies + d })
          ≡ ok tt (record {
            store = s;
            node = c.node;
            slots = λ _. [];
            u_jiffies = (c.u_jiffies + d + 1) % 2 ^ 32;
          }) =
        rw eq refl in
      let small' : (c.u_jiffies + d + 1) % 2 ^ 32 ≡ c.u_jiffies + d + 1 = omega arith in
      mono
        (Matches-Returns
          (run_from-run_ticks call c c ts a k rounds (c.u_jiffies + d) (suc d) shown lt small
            (omega arith) (omega arith))
          (lone-runs call c.timer_manager a t z d alone once near now (omega arith) ∙ last))
        λ _ c' h. record { wheel = h.wheel; rest = rw small' at h.same }

  -- before that time it runs nothing
  loop-waits :
      (d now : ℕ)
      → d < 256
      → (c.u_jiffies + d) % 256 ≡ t % 256
      → c.u_jiffies + d < 2 ^ 32 - 1
      → c.u_jiffies ≤ now
      → now < c.u_jiffies + d
      → Returns (λ _. Ran c ts c.store (now + 1) f) (run_from call k rounds now c)
  loop-waits d now near due small past early =
      let a = timing c f in
      let n = now + 1 - c.u_jiffies in
      let there : c.u_jiffies + n ≡ now + 1 = omega arith in
      mono
        (Matches-Returns
          (run_from-run_ticks call c c ts a k rounds now n shown lt (omega arith) (omega arith)
            (omega arith))
          (lone-waits call c.timer_manager a t z n d alone (omega arith) near due (omega arith)))
        λ _ c' h. record { wheel = h.wheel; rest = rw there at h.same }

-- A timer that is due in less than 256 ms, alone in the wheels, in the slot that `add_timer` chooses, and
-- not periodic: the loop of `run_timer` calls its function, one that returns, at the time of its expiry,
-- which empties the wheels, and before that time it leaves the memory of the library and the slots as they
-- are. `rounds` exceeds the number of timers.
pub run_from_on_time :
    (call : Callbacks) (c : Clock) (ts : List Ptr) (k rounds t z : ℕ) (s : Store)
    → IsWheel c.wheel c.timer_manager ts (put (λ _. []) (slot c.timer_manager c.u_jiffies t) z)
    → length ts < rounds
    → 256 < k
    → (c.node z).u_period ≡ 0
    → c.u_jiffies ≤ t
    → t < c.u_jiffies + 256
    → t < 2 ^ 32 - 1
    → call (c.node z).timer_fn (c.node z).p_param c.store ≡ ok tt s
    → Returns (λ _. Ran c ts s (t + 1) (λ _. [])) (run_from call k rounds t c)
      × ((now : ℕ)
          → c.u_jiffies ≤ now
          → now < t
          → Returns
              (λ _.
                Ran c ts c.store (now + 1) (put (λ _. []) (slot c.timer_manager c.u_jiffies t) z))
              (run_from call k rounds now c))
run_from_on_time call c ts k rounds t z s wheel lt enough once past near small eq =
    let d = t - c.u_jiffies in
    let there : c.u_jiffies + d ≡ t = omega arith in
    let alone =
      put-lone c.timer_manager c.u_jiffies t z
        (slot-first c.timer_manager c.u_jiffies t past (omega arith) (omega arith)) in
    (
      rw there at (
          loop-fires call c ts k rounds t z _ alone wheel lt enough d s once (omega arith)
            (omega arith) (omega arith) eq),
      λ now after before.
          loop-waits call c ts k rounds t z _ alone wheel lt enough d now (omega arith)
            (omega arith) (omega arith) after (omega arith),
    )

-- A timer that is due in 256 ms to 2559 ms, alone in the wheels, in the slot that `add_timer` chooses, and
-- not periodic, runs too early: the loop of `run_timer` calls its function, one that returns, after the
-- remainder of that time by 256, as if whole rounds of the first wheel were left out. `rounds` exceeds
-- the number of timers.
pub run_from_early :
    (call : Callbacks) (c : Clock) (ts : List Ptr) (k rounds t z : ℕ) (s : Store)
    → IsWheel c.wheel c.timer_manager ts (put (λ _. []) (slot c.timer_manager c.u_jiffies t) z)
    → length ts < rounds
    → 256 < k
    → (c.node z).u_period ≡ 0
    → c.u_jiffies + 256 ≤ t
    → t < c.u_jiffies + 2560
    → t < 2 ^ 32 - 1
    → call (c.node z).timer_fn (c.node z).p_param c.store ≡ ok tt s
    → (c.u_jiffies + (t - c.u_jiffies) % 256 < t)
      × Returns
          (λ _. Ran c ts s (c.u_jiffies + (t - c.u_jiffies) % 256 + 1) (λ _. []))
          (run_from call k rounds (c.u_jiffies + (t - c.u_jiffies) % 256) c)
run_from_early call c ts k rounds t z s wheel lt enough once far near small eq =
    let alone =
      put-lone c.timer_manager c.u_jiffies t z
        (slot-first c.timer_manager c.u_jiffies t (omega arith) near (omega arith)) in
    (
      omega arith,
      loop-fires call c ts k rounds t z _ alone wheel lt enough ((t - c.u_jiffies) % 256) s once
          (omega arith) (omega arith) (omega arith) eq,
    )
