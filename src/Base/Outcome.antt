-- ===== src/Base/Outcome.antt =====
-- The outcome of a C call over a state, and commands: functions from the state to an outcome.
use mathlib.Core.Path.{◌≡◌, refl}
use mathlib.Core.Bool.{Bool, true, false}

-- `ok`: the call returns. `fault`: undefined behaviour, an access through NULL or out of bounds.
-- `spin`: an assertion fails and the task loops for ever. `switched`: the processor is handed to
-- another task in the middle of the call. `out_of_fuel`: the model's loop was given too few rounds.
pub data Run (S A : Type 0) : Type 0 where
  ok : A → S → Run S A
  fault : Run S A
  spin : S → Run S A
  switched : S → Run S A
  out_of_fuel : Run S A

abbrev pub Cmd : Type 0 → Type 0 → Type 0
Cmd S A = S → Run S A

abbrev pub Unit₀ : Type 0
Unit₀ = Unit {0}

module _ {S A B : Type 0} where
  abbrev pub and_then : Run S A → (A → Cmd S B) → Run S B
  and_then (ok a s) k = k a s
  and_then fault k = fault
  and_then (spin s) k = spin s
  and_then (switched s) k = switched s
  and_then out_of_fuel k = out_of_fuel

  infixl 5 ◌>>=◌ ◌>>◌
  abbrev pub ◌>>=◌ : Cmd S A → (A → Cmd S B) → Cmd S B
  m >>= k = λ s. and_then (m s) k

  abbrev pub ◌>>◌ : Cmd S A → Cmd S B → Cmd S B
  m >> n = m >>= λ _. n

abbrev pub pure : {S A : Type 0} → A → Cmd S A
pure a s = ok a s

-- `assert (c)`: a false condition prints a message and loops.
abbrev pub assert : {S : Type 0} → Bool → Cmd S Unit₀
assert true s = ok tt s
assert false s = spin s

-- A property of the result and the final state of a call that returns.
pub data Returns {S A : Type 0} (P : A → S → Type 0) : Run S A → Type 0 where
  returns : {a : A} {s : S} → P a s → Returns P (ok a s)

module _ {S A : Type 0} {P : A → S → Type 0} where
  pub bind :
      {B : Type 0} {Q : B → S → Type 0} {r : Run S A} {k : A → Cmd S B}
      → Returns P r
      → ((a : A) (s : S) → P a s → Returns Q (k a s))
      → Returns Q (and_then r k)
  bind (returns p) next = next _ _ p

  pub mono :
      {Q : A → S → Type 0} {r : Run S A}
      → Returns P r
      → ((a : A) (s : S) → P a s → Q a s)
      → Returns Q r
  mono (returns p) weaken = returns (weaken _ _ p)

-- The outcome of a command on one part of the state, as one of the whole.
abbrev pub put_back : {S T A : Type 0} → (T → S → S) → S → Run T A → Run S A
put_back put s (ok a t) = ok a (put t s)
put_back put s fault = fault
put_back put s (spin t) = spin (put t s)
put_back put s (switched t) = switched (put t s)
put_back put s out_of_fuel = out_of_fuel

-- A command on one part of the state.
abbrev pub run_on : {S T A : Type 0} → (S → T) → (T → S → S) → Cmd T A → Cmd S A
run_on get put c s = put_back put s (c (get s))

-- A call that returns, taken apart.
pub Returns-eq :
    {S A : Type 0} {P : A → S → Type 0} {r : Run S A}
    → Returns P r
    → (a : A) × (s : S) × (r ≡ ok a s) × P a s
Returns-eq (returns {a} {s} p) = (a, s, refl, p)

-- A property of the final state of a call, if it returns.
pub data IfReturns {S A : Type 0} (P : S → Type 0) : Run S A → Type 0 where
  if_returned : {a : A} {s : S} → P s → IfReturns P (ok a s)
  if_fault : IfReturns P fault
  if_spin : {s : S} → IfReturns P (spin s)
  if_switched : {s : S} → IfReturns P (switched s)
  if_stopped : IfReturns P out_of_fuel

module _ {S A B : Type 0} {P : S → Type 0} where
  pub IfReturns-bind :
      {Q : S → Type 0} {r : Run S A} {k : A → Cmd S B}
      → IfReturns P r
      → ((a : A) (s : S) → P s → IfReturns Q (k a s))
      → IfReturns Q (and_then r k)
  IfReturns-bind (if_returned p) next = next _ _ p
  IfReturns-bind if_fault next = if_fault
  IfReturns-bind if_spin next = if_spin
  IfReturns-bind if_switched next = if_switched
  IfReturns-bind if_stopped next = if_stopped

  pub IfReturns-same :
      {r : Run S A} {k k' : A → Cmd S B}
      → IfReturns P r
      → ((a : A) (s : S) → P s → k a s ≡ k' a s)
      → and_then r k ≡ and_then r k'
  IfReturns-same (if_returned p) next = next _ _ p
  IfReturns-same if_fault next = refl
  IfReturns-same if_spin next = refl
  IfReturns-same if_switched next = refl
  IfReturns-same if_stopped next = refl

pub IfReturns-mono :
    {S A : Type 0} {P Q : S → Type 0} {r : Run S A}
    → IfReturns P r
    → ((s : S) → P s → Q s)
    → IfReturns Q r
IfReturns-mono (if_returned p) weaken = if_returned (weaken _ p)
IfReturns-mono if_fault weaken = if_fault
IfReturns-mono if_spin weaken = if_spin
IfReturns-mono if_switched weaken = if_switched
IfReturns-mono if_stopped weaken = if_stopped

-- A property of the result of a call that returns, and one of the memory of a call that loops or
-- hands the processor over.
pub data Ends {S A : Type 0} (P : A → S → Type 0) (Q : S → Type 0) : Run S A → Type 0 where
  end_returned : {a : A} {s : S} → P a s → Ends P Q (ok a s)
  end_fault : Ends P Q fault
  end_spin : {s : S} → Q s → Ends P Q (spin s)
  end_switched : {s : S} → Q s → Ends P Q (switched s)
  end_stopped : Ends P Q out_of_fuel

module _ {S A B : Type 0} {P : A → S → Type 0} {Q : S → Type 0} where
  pub Ends-bind :
      {P' : B → S → Type 0} {r : Run S A} {k : A → Cmd S B}
      → Ends P Q r
      → ((a : A) (s : S) → P a s → Ends P' Q (k a s))
      → Ends P' Q (and_then r k)
  Ends-bind (end_returned p) next = next _ _ p
  Ends-bind end_fault next = end_fault
  Ends-bind (end_spin q) next = end_spin q
  Ends-bind (end_switched q) next = end_switched q
  Ends-bind end_stopped next = end_stopped

  pub Ends-same :
      {r : Run S A} {k k' : A → Cmd S B}
      → Ends P Q r
      → ((a : A) (s : S) → P a s → k a s ≡ k' a s)
      → and_then r k ≡ and_then r k'
  Ends-same (end_returned p) next = next _ _ p
  Ends-same end_fault next = refl
  Ends-same (end_spin q) next = refl
  Ends-same (end_switched q) next = refl
  Ends-same end_stopped next = refl

module _ {S A : Type 0} {P : A → S → Type 0} {Q : S → Type 0} where
  pub Ends-ok : {a : A} {s : S} → Ends P Q (ok a s) → P a s
  Ends-ok (end_returned p) = p

  pub Ends-spin : {s : S} → Ends P Q (spin s) → Q s
  Ends-spin (end_spin q) = q

  pub Ends-switched : {s : S} → Ends P Q (switched s) → Q s
  Ends-switched (end_switched q) = q

pub Returns-ok : {S A : Type 0} {P : A → S → Type 0} {a : A} {s : S} → Returns P (ok a s) → P a s
Returns-ok (returns p) = p
