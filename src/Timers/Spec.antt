-- ===== src/Timers/Spec.antt =====
-- The timers as a machine on sequences: what `run_timer` means, without a list node or a pointer.
use lutf.Base.{
  ℕ, zero, suc, ◌+◌, ◌%◌, ◌^◌, ◌≡◌, refl, ◌==◌, true, false, leb, if◌then◌else◌, List, [], ◌∷◌, Cmd,
  Run, Unit₀, ok, fault, spin, switched, out_of_fuel, pure, put_back, and_then, ◌>>◌, IfReturns,
  if_returned, if_fault, if_spin, if_switched, if_stopped, IfReturns-bind, IfReturns-same,
  IfReturns-mono, Bool-cases, inl, inr, ap, ◌∙◌, arith, ◌<◌, ◌-◌,
}
use lutf.Lists.{Ptr}
use lutf.Store.{Store}
use lutf.Sync.{lock_acquire, lock_release}
use lutf.Timers.Cascade.{clear}
use lutf.Timers.Levels.{cascaded}
use lutf.Timers.Run.{Callbacks}
use lutf.Timers.Slots.{IsWheel, put}
use lutf.Timers.Wheels.{Clock, TimerNode, slot}

-- The slots by their heads, each a sequence of timers; the manager is at a fixed address.
pub record Timing : Type 0 where
  pub store : Store
  pub node : Ptr → TimerNode
  pub slots : Ptr → List Ptr
  pub u_jiffies : ℕ

-- a periodic timer that has run at the time `j`
abbrev pub renewed : (u_jiffies : ℕ) → Ptr → Timing → Timing
renewed j z a = record a {
  node = λ p.
      if p == z
      then record (a.node z) { u_expires = (j + (a.node z).u_period) % 2 ^ 32 }
      else a.node p;
}

abbrev pub renew_timer : (m : Ptr) → Ptr → Cmd Timing Unit₀
renew_timer m z a =
    if (a.node z).u_period == 0
    then ok tt a
    else ok tt (record (renewed a.u_jiffies z a) {
      slots = put a.slots (slot m a.u_jiffies ((a.u_jiffies + (a.node z).u_period) % 2 ^ 32)) z;
    })

abbrev pub call_timer : Callbacks → Ptr → Cmd Timing Unit₀
call_timer call z a =
    put_back (λ s t. record t { store = s }) a (call (a.node z).timer_fn (a.node z).p_param a.store)

-- Timers that have expired run in their order; periodic ones go into their next slots.
unfoldable pub expire_all : Callbacks → (m : Ptr) → List Ptr → Cmd Timing Unit₀
expire_all call m [] = pure tt
expire_all call m (z ∷ zs) = (call_timer call z >> renew_timer m z) >> expire_all call m zs

abbrev pub advance : Cmd Timing Unit₀
advance a = ok tt (record a { u_jiffies = (a.u_jiffies + 1) % 2 ^ 32 })

-- One millisecond: the wheels are cascaded, and the timers in the slot of this time expire.
unfoldable pub tick : Callbacks → (m : Ptr) → Cmd Timing Unit₀
tick call m a =
    let f = cascaded m a.u_jiffies a.node a.slots in
    let h = m + 1 + a.u_jiffies % 256 in
    (expire_all call m (f h) >> advance) (record a { slots = clear f h })

-- `n` milliseconds
unfoldable pub run_ticks : Callbacks → (m : Ptr) → ℕ → Cmd Timing Unit₀
run_ticks call m zero = pure tt
run_ticks call m (suc n) = tick call m >> run_ticks call m n

-- Milliseconds until the time is past `now`, `k` at most.
unfoldable pub run_until : Callbacks → (m : Ptr) → (k now : ℕ) → Cmd Timing Unit₀
run_until call m zero now a = out_of_fuel
run_until call m (suc k) now a =
    (if leb a.u_jiffies now then (tick call m >> run_until call m k now) else pure tt) a

renew_timer-time :
    (m z : Ptr) (a : Timing) → IfReturns (λ a'. a'.u_jiffies ≡ a.u_jiffies) (renew_timer m z a)
renew_timer-time m z a = elim (Bool-cases ((a.node z).u_period == 0)) [
  | inl e ↦ rw e (if_returned refl)
  | inr n ↦ rw n (if_returned refl)
]

call_timer-time :
    (a : Timing) (r : Run Store Unit₀)
    → IfReturns {A = Unit₀}
        (λ a'. a'.u_jiffies ≡ a.u_jiffies)
        (put_back (λ s t. record t { store = s }) a r)
call_timer-time a (ok x s) = if_returned refl
call_timer-time a fault = if_fault
call_timer-time a (spin s) = if_spin
call_timer-time a (switched s) = if_switched
call_timer-time a out_of_fuel = if_stopped

expire_all-time :
    (call : Callbacks) (m : Ptr) (zs : List Ptr) (a : Timing)
    → IfReturns (λ a'. a'.u_jiffies ≡ a.u_jiffies) (expire_all call m zs a)
unfolding expire_all
expire_all-time call m [] a = if_returned refl
expire_all-time call m (z ∷ zs) a =
    IfReturns-bind
      (IfReturns-bind (call_timer-time a (call (a.node z).timer_fn (a.node z).p_param a.store))
        λ _ b e. IfReturns-mono (renew_timer-time m z b) λ b' e'. e' ∙ e)
      λ _ b e. IfReturns-mono (expire_all-time call m zs b) λ b' e'. e' ∙ e

tick-time :
    (call : Callbacks) (m : Ptr) (a : Timing)
    → IfReturns (λ a'. a'.u_jiffies ≡ (a.u_jiffies + 1) % 2 ^ 32) (tick call m a)
unfolding tick
tick-time call m a =
    IfReturns-bind (expire_all-time call m _ _) λ _ b e. if_returned (ap (λ j. (j + 1) % 2 ^ 32) e)

pub run_until-run_ticks :
    (call : Callbacks) (m : Ptr) (k now n : ℕ) (a : Timing)
    → now < 2 ^ 32 - 1
    → a.u_jiffies + n ≡ now + 1
    → n < k
    → run_until call m k now a ≡ run_ticks call m n a
unfolding run_until run_ticks
run_until-run_ticks call m zero now n a small e lt = absurd (omega arith)
run_until-run_ticks call m (suc k) now zero a small e lt =
    let past : leb a.u_jiffies now ≡ false = ground arith in rw past refl
run_until-run_ticks call m (suc k) now (suc n) a small e lt =
    let more : leb a.u_jiffies now ≡ true = ground arith in
    rw more (
      IfReturns-same (tick-time call m a)
        λ _ b t. run_until-run_ticks call m k now n b small (omega (arith, t)) (omega arith))

-- an operation of the library
abbrev pub on_time : Cmd Store Unit₀ → Cmd Timing Unit₀
on_time cmd a = put_back (λ s t. record t { store = s }) a (cmd a.store)

-- `run_timer` for `n` milliseconds, under the lock at `lock`
abbrev pub locked_ticks : Callbacks → (m lock rounds n : ℕ) → Cmd Timing Unit₀
locked_ticks call m lock rounds n =
    on_time (lock_acquire rounds lock) >> (run_ticks call m n >> on_time (lock_release rounds lock))

pub on_time-time :
    (cmd : Cmd Store Unit₀) (a : Timing)
    → IfReturns (λ a'. a'.u_jiffies ≡ a.u_jiffies) (on_time cmd a)
on_time-time cmd a = call_timer-time a (cmd a.store)

-- Two runs end alike, in states that `R` relates.
pub data Matches {S T A : Type 0} (R : S → T → Type 0) : Run S A → Run T A → Type 0 where
  both_return : {a : A} {s : S} {t : T} → R s t → Matches R (ok a s) (ok a t)
  both_fault : Matches R fault fault
  both_spin : {s : S} {t : T} → R s t → Matches R (spin s) (spin t)
  both_switch : {s : S} {t : T} → R s t → Matches R (switched s) (switched t)
  both_stop : Matches R out_of_fuel out_of_fuel

pub Matches-bind :
    {S T A B : Type 0} {R : S → T → Type 0} {r : Run S A} {r' : Run T A} {k : A → Cmd S B}
    {k' : A → Cmd T B}
    → Matches R r r'
    → ((a : A) (s : S) (t : T) → R s t → Matches R (k a s) (k' a t))
    → Matches R (and_then r k) (and_then r' k')
Matches-bind (both_return p) next = next _ _ _ p
Matches-bind both_fault next = both_fault
Matches-bind (both_spin p) next = both_spin p
Matches-bind (both_switch p) next = both_switch p
Matches-bind both_stop next = both_stop

pub Matches-stop :
    {S T A : Type 0} {R : S → T → Type 0} {r : Run S A} → Matches R r out_of_fuel → r ≡ out_of_fuel
Matches-stop both_stop = refl

-- The clock `c` with the memory, the nodes, the time and the slots of `a`; the rest is as in `c₀`.
pub record Shows (c₀ : Clock) (ts : List Ptr) (c : Clock) (a : Timing) : Type 0 where
  pub wheel : IsWheel c.wheel c₀.timer_manager ts a.slots
  pub same :
      c ≡ record c₀ { wheel = c.wheel; store = a.store; node = a.node; u_jiffies = a.u_jiffies }
