-- ===== src/Base/Fresh.antt =====
-- Finite sequences of addresses: membership as a test, distinctness and disjointness.
use Prim.Native.Nat.{ℕ, suc, ◌≤◌}
use mathlib.Core.Path.{◌≡◌, refl}
use mathlib.Core.Logic.{◌≢◌, inl, inr}
use mathlib.Core.Bool.{Bool, true, false, ◌||◌, or_assoc}
use mathlib.Core.List.{List, [], ◌∷◌, ◌++◌}
use native.Mathlib.Omega.{arith}
use lutf.Base.Tests.{◌==◌, Bool-cases, length, if◌then◌else◌}

abbrev pub has : ℕ → List ℕ → Bool
has a [] = false
has a (x ∷ xs) = (a == x) || has a xs

infix 40 ◌∈◌ ◌∉◌
abbrev pub ◌∈◌ : ℕ → List ℕ → Type 0
a ∈ xs = has a xs ≡ true

abbrev pub ◌∉◌ : ℕ → List ℕ → Type 0
a ∉ xs = has a xs ≡ false

abbrev pub Distinct : List ℕ → Type 0
Distinct [] = Unit
Distinct (x ∷ xs) = (x ∉ xs) × Distinct xs

abbrev pub Apart : List ℕ → List ℕ → Type 0
Apart xs ys = (a : ℕ) → a ∈ xs → a ∉ ys

pub has-append : (a : ℕ) (xs ys : List ℕ) → has a (xs ++ ys) ≡ (has a xs || has a ys)
has-append a [] cs = refl
has-append a (b ∷ bs) cs = rw (has-append a bs cs, or_assoc)

pub ne_of_not-mem : (a x : ℕ) (xs : List ℕ) → a ∉ (x ∷ xs) → a ≢ x
ne_of_not-mem a x xs h = ground arith

pub not-mem-append : (a : ℕ) (xs ys : List ℕ) → a ∉ xs → a ∉ ys → a ∉ (xs ++ ys)
not-mem-append a xs ys h k = ground (arith, has-append a xs ys)

pub not-mem-left : (a : ℕ) (xs ys : List ℕ) → a ∉ (xs ++ ys) → a ∉ xs
not-mem-left a xs ys h = ground (arith, has-append a xs ys)

pub not-mem-right : (a : ℕ) (xs ys : List ℕ) → a ∉ (xs ++ ys) → a ∉ ys
not-mem-right a xs ys h = ground (arith, has-append a xs ys)

pub Distinct-left : (xs ys : List ℕ) → Distinct (xs ++ ys) → Distinct xs
Distinct-left [] ys d = tt
Distinct-left (x ∷ xs) ys d = (not-mem-left x xs ys d.0, Distinct-left xs ys d.1)

pub Distinct-right : (xs ys : List ℕ) → Distinct (xs ++ ys) → Distinct ys
Distinct-right [] ys d = d
Distinct-right (x ∷ xs) ys d = Distinct-right xs ys d.1

-- A fresh address may stand between two parts, and one may be taken away.
pub Distinct-insert :
    (xs ys : List ℕ) (e : ℕ) → Distinct (xs ++ ys) → e ∉ (xs ++ ys) → Distinct (xs ++ (e ∷ ys))
Distinct-insert [] ys e d f = (f, d)
Distinct-insert (x ∷ xs) ys e d f = (
  ground (arith, has-append x xs ys, has-append x xs (e ∷ ys)),
  Distinct-insert xs ys e d.1 (ground arith),
)

pub Distinct-drop : (xs ys : List ℕ) (e : ℕ) → Distinct (xs ++ (e ∷ ys)) → Distinct (xs ++ ys)
Distinct-drop [] ys e d = d.1
Distinct-drop (x ∷ xs) ys e d =
    (ground (arith, has-append x xs ys, has-append x xs (e ∷ ys)), Distinct-drop xs ys e d.1)

-- The address in the middle of a distinct list stands in neither part.
pub Distinct-middle : (xs ys : List ℕ) (e : ℕ) → Distinct (xs ++ (e ∷ ys)) → (e ∉ xs) × (e ∉ ys)
Distinct-middle [] ys e d = (refl, d.0)
Distinct-middle (x ∷ xs) ys e d =
    ground (arith, Distinct-middle xs ys e d.1, has-append x xs (e ∷ ys))

pub Distinct-apart : (a : ℕ) (xs ys : List ℕ) → Distinct (xs ++ ys) → a ∈ xs → a ∉ ys
Distinct-apart a [] ys d i = ground arith
Distinct-apart a (x ∷ xs) ys d i = elim (Bool-cases (a == x)) [
  | inl e ↦ ground (arith, has-append x xs ys)
  | inr n ↦ Distinct-apart a xs ys d.1 (ground arith)
]

abbrev without : ℕ → List ℕ → List ℕ
without a [] = []
without a (x ∷ xs) = if a == x then xs else x ∷ without a xs

length-without : (a : ℕ) (xs : List ℕ) → a ∈ xs → length xs ≡ suc (length (without a xs))
length-without a [] i = cc
length-without a (x ∷ xs) i = ground (arith, length-without a xs)

has-without : (a b : ℕ) (xs : List ℕ) → b ∈ xs → b ≢ a → b ∈ without a xs
has-without a b [] i ne = cc
has-without a b (x ∷ xs) i ne = ground (arith, has-without a b xs)

-- Distinct addresses out of a sequence are no more than it has.
pub length-le_of_Distinct :
    (xs ys : List ℕ) → Distinct xs → ((a : ℕ) → a ∈ xs → a ∈ ys) → length xs ≤ length ys
length-le_of_Distinct [] ys d sub = omega arith
length-le_of_Distinct (x ∷ xs) ys d sub = omega (
  arith,
  length-without x ys (sub x (ground arith)),
  length-le_of_Distinct xs (without x ys) d.1
      (λ a i. has-without x a ys (sub a (ground arith)) (ground (arith, d.0))),
)

pub Distinct-snoc : (xs : List ℕ) (e : ℕ) → Distinct xs → e ∉ xs → Distinct (xs ++ (e ∷ []))
Distinct-snoc [] e d f = (refl, tt)
Distinct-snoc (x ∷ xs) e d f =
    (ground (arith, has-append x xs (e ∷ [])), Distinct-snoc xs e d.1 (ground arith))
