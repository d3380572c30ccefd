-- ===== src/Timers/Expiry.antt =====
-- When a timer runs: one timer alone in the first wheel, and no timer at all.
use mathlib.Core.Path.{fun_ext}
use lutf.Base.{
  ℕ, zero, suc, ◌+◌, ◌-◌, ◌/◌, ◌%◌, ◌^◌, ◌≤◌, ◌<◌, ◌≡◌, refl, ◌==◌, true, false, leb, ltb,
  if◌then◌else◌, List, [], ◌∷◌, arith, Run, Unit₀, ok, fault, spin, switched, out_of_fuel, pure,
  and_then, put_back, ◌>>◌, length, ◌∙◌, ap, sym, Bool-cases, inl, inr, ==_iff,
}
use lutf.Lists.{Ptr}
use lutf.Store.{Store}
use lutf.Timers.Slots.{put}
use lutf.Timers.Refine.{run_from-run_until}
use lutf.Timers.Cascade.{clear, move}
use lutf.Timers.Levels.{cascaded}
use lutf.Timers.Run.{Callbacks, run_from}
use lutf.Timers.Spec.{
  Timing, call_timer, renew_timer, expire_all, advance, tick, run_ticks, run_until, Shows,
  Matches-stop,
}
use lutf.Timers.Wheels.{Clock, TimerNode, slot, index}

-- a timer alone, in the slot of the first wheel for the time `t`
abbrev pub lone : (m t z : ℕ) → Ptr → List Ptr
lone m t z k = if k == m + 1 + t % 256 then z ∷ [] else []

clear-idle : (f : Ptr → List Ptr) (h : Ptr) → f h ≡ [] → clear f h ≡ f
clear-idle f h e = fun_ext λ k. elim (Bool-cases (k == h)) [
  | inl eq ↦ rw eq (sym e ∙ ap f (sym ((==_iff k h).0 eq)))
  | inr ne ↦ rw ne refl
]

move-idle :
    (m j : ℕ) (node : Ptr → TimerNode) (h : Ptr) (f : Ptr → List Ptr)
    → f h ≡ []
    → move m j node h f ≡ f
move-idle m j node h f e = rw e (clear-idle f h e)

cascaded-idle :
    (m j : ℕ) (node : Ptr → TimerNode) (f : Ptr → List Ptr)
    → ((h : Ptr) → m + 257 ≤ h → f h ≡ [])
    → cascaded m j node f ≡ f
cascaded-idle m j node f none =
    let e₂ =
      move-idle m j node (m + 257 + index 0 j) f (none (m + 257 + index 0 j) (omega arith)) in
    let e₃ =
      move-idle m j node (m + 321 + index 1 j) f (none (m + 321 + index 1 j) (omega arith)) in
    let e₄ =
      move-idle m j node (m + 385 + index 2 j) f (none (m + 385 + index 2 j) (omega arith)) in
    let e₅ =
      move-idle m j node (m + 449 + index 3 j) f (none (m + 449 + index 3 j) (omega arith)) in
    rw (e₂, e₃, e₄, e₅) (ground arith)

-- A millisecond in which no timer expires.
pub tick-idle :
    (call : Callbacks) (m : Ptr) (a : Timing)
    → ((h : Ptr) → m + 257 ≤ h → a.slots h ≡ [])
    → a.slots (m + 1 + a.u_jiffies % 256) ≡ []
    → tick call m a ≡ ok tt (record a { u_jiffies = (a.u_jiffies + 1) % 2 ^ 32 })
unfolding tick expire_all
tick-idle call m a none now =
    let h = m + 1 + a.u_jiffies % 256 in
    rw (cascaded-idle m a.u_jiffies a.node a.slots none, now, clear-idle a.slots h now) refl

and_then-pure : {S : Type 0} (r : Run S Unit₀) → and_then r (λ _. pure tt) ≡ r
and_then-pure (ok x s) = refl
and_then-pure fault = refl
and_then-pure (spin s) = refl
and_then-pure (switched s) = refl
and_then-pure out_of_fuel = refl

pub lone-high : (m t z h : ℕ) → m + 257 ≤ h → lone m t z h ≡ []
lone-high m t z h le = ground arith

pub lone-other : (m t z j : ℕ) → (j % 256 == t % 256) ≡ false → lone m t z (m + 1 + j % 256) ≡ []
lone-other m t z j ne = ground arith

lone-own : (m t z j : ℕ) → j % 256 ≡ t % 256 → lone m t z (m + 1 + j % 256) ≡ z ∷ []
lone-own m t z j e = ground arith

clear-lone : (m t z j : ℕ) → j % 256 ≡ t % 256 → clear (lone m t z) (m + 1 + j % 256) ≡ (λ _. [])
clear-lone m t z j e = fun_ext λ k. ground arith

-- a timer that is not periodic is not renewed
call-once :
    (m z : Ptr) (a : Timing) (r : Run Store Unit₀)
    → (a.node z).u_period ≡ 0
    → and_then
        (and_then
          (and_then (put_back (λ s t. record t { store = s }) a r) (λ _. renew_timer m z))
          (λ _. pure tt))
        (λ _. advance)
      ≡ and_then (put_back (λ s t. record t { store = s }) a r) (λ _. advance)
call-once m z a (ok x s) once = rw once refl
call-once m z a fault once = refl
call-once m z a (spin s) once = refl
call-once m z a (switched s) once = refl
call-once m z a out_of_fuel once = refl

-- the millisecond in which a lone timer runs, which is not periodic
tick-lone :
    (call : Callbacks) (m : Ptr) (a : Timing) (t z : ℕ)
    → a.slots ≡ lone m t z
    → (a.node z).u_period ≡ 0
    → a.u_jiffies % 256 ≡ t % 256
    → tick call m a ≡ (call_timer call z >> advance) (record a { slots = λ _. [] })
unfolding tick expire_all
tick-lone call m a t z alone once now =
    let j = a.u_jiffies in
    let h = m + 1 + j % 256 in
    let high : (k : Ptr) → m + 257 ≤ k → a.slots k ≡ [] =
      λ k le. ap (λ (f : Ptr → List Ptr). f k) alone ∙ lone-high m t z k le in
    let own : a.slots h ≡ z ∷ [] = ap (λ (f : Ptr → List Ptr). f h) alone ∙ lone-own m t z j now in
    let cleared : clear a.slots h ≡ (λ _. []) =
      ap (λ f. clear f h) alone ∙ clear-lone m t z j now in
    rw (cascaded-idle m j a.node a.slots high, own, cleared)
      (call-once m z (record a { slots = λ _. [] })
        (call (a.node z).timer_fn (a.node z).p_param a.store) once)

pub lone-runs :
    (call : Callbacks) (m : Ptr) (a : Timing) (t z d : ℕ)
    → a.slots ≡ lone m t z
    → (a.node z).u_period ≡ 0
    → d < 256
    → (a.u_jiffies + d) % 256 ≡ t % 256
    → a.u_jiffies + d < 2 ^ 32
    → run_ticks call m (suc d) a
      ≡ (call_timer call z >> advance) (record a { slots = λ _. []; u_jiffies = a.u_jiffies + d })
unfolding run_ticks
lone-runs call m a t z zero alone once lt now small =
    let same : a.u_jiffies + 0 ≡ a.u_jiffies = omega arith in
    rw (same, tick-lone call m a t z alone once (omega arith), and_then-pure) refl
lone-runs call m a t z (suc d) alone once lt now small =
    let high : (k : Ptr) → m + 257 ≤ k → a.slots k ≡ [] =
      λ k le. ap (λ (f : Ptr → List Ptr). f k) alone ∙ lone-high m t z k le in
    let other : a.slots (m + 1 + a.u_jiffies % 256) ≡ [] =
      ap (λ (f : Ptr → List Ptr). f (m + 1 + a.u_jiffies % 256)) alone
      ∙ lone-other m t z a.u_jiffies (ground arith) in
    rw (tick-idle call m a high other) (
      lone-runs call m (record a { u_jiffies = (a.u_jiffies + 1) % 2 ^ 32 }) t z d alone once
        (omega arith) (omega arith) (omega arith)
      ∙ ap (λ j. (call_timer call z >> advance) (record a { slots = λ _. []; u_jiffies = j }))
          (omega arith))

pub slot-first : (m j t : ℕ) → j ≤ t → t < j + 2560 → t < 2 ^ 32 → slot m j t ≡ m + 1 + t % 256
unfolding slot
slot-first m j t past near small =
    let due : (t + 2 ^ 32 - j) % 2 ^ 32 / 10 ≡ (t - j) / 10 = omega arith in
    let first : ltb ((t - j) / 10) 256 ≡ true = ground arith in rw (due, first) refl

pub put-lone :
    (m j t z : ℕ) → slot m j t ≡ m + 1 + t % 256 → put (λ _. []) (slot m j t) z ≡ lone m t z
put-lone m j t z e = rw e refl

run_until_endless :
    (call : Callbacks) (m : Ptr) (k : ℕ) (a : Timing)
    → a.slots ≡ (λ _. [])
    → a.u_jiffies < 2 ^ 32
    → run_until call m k (2 ^ 32 - 1) a ≡ out_of_fuel
unfolding run_until
run_until_endless call m zero a none small = refl
run_until_endless call m (suc k) a none small =
    let more : leb a.u_jiffies (2 ^ 32 - 1) ≡ true = ground arith in
    let empty = λ (h : Ptr). ap (λ (f : Ptr → List Ptr). f h) none in
    rw (more, tick-idle call m a (λ h le. empty h) (empty (m + 1 + a.u_jiffies % 256)))
      (run_until_endless call m k (record a { u_jiffies = (a.u_jiffies + 1) % 2 ^ 32 }) none
        (omega arith))

-- The loop of `run_timer` does not end if the time is 2^32 - 1: with no timers, however many rounds are
-- given, more are wanted, since the time of the manager comes round to 0.
pub run_from_endless :
    (call : Callbacks) (c₀ c : Clock) (ts : List Ptr) (a : Timing) (k rounds : ℕ)
    → Shows c₀ ts c a
    → length ts < rounds
    → a.slots ≡ (λ _. [])
    → a.u_jiffies < 2 ^ 32
    → run_from call k rounds (2 ^ 32 - 1) c ≡ out_of_fuel
run_from_endless call c₀ c ts a k rounds shows lt none small = Matches-stop (
    rw (run_until_endless call c₀.timer_manager k a none small) at
      (run_from-run_until call c₀ c ts a k rounds (2 ^ 32 - 1) shows lt))
