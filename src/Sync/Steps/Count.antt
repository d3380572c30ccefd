-- ===== src/Sync/Steps/Count.antt =====
-- How many tasks have lowered the value of a lock and not raised it.
use mathlib.Core.Path.{subst}
use lutf.Base.{
  ==_iff, ap, ℕ, ◌+◌, ◌≤◌, ◌≡◌, refl, ◌==◌, Bool-cases, inl, inr, true, false, arith, List, [], ◌∷◌,
  ◌∈◌, ◌∉◌, Distinct, length, if◌then◌else◌,
}
use lutf.Lists.{Ptr}
use lutf.Store.Access.{update_at}
use lutf.Sync.Steps.{Phase}
use lutf.Sync.Steps.Moves.{has_lowered}

abbrev pub weight : Phase → ℕ
weight a = if has_lowered a then 1 else 0

abbrev pub lowered_by : List Ptr → (Ptr → Phase) → ℕ
lowered_by [] phase = 0
lowered_by (t ∷ ts) phase = weight (phase t) + lowered_by ts phase

pub lowered_by_le : (ts : List Ptr) (phase : Ptr → Phase) → lowered_by ts phase ≤ length ts
lowered_by_le [] phase = omega arith
lowered_by_le (t ∷ ts) phase = elim (Bool-cases (has_lowered (phase t))) [
  | inl e ↦ rw e (omega (arith, lowered_by_le ts phase))
  | inr e ↦ rw e (omega (arith, lowered_by_le ts phase))
]

lowered_by-out :
    (ts : List Ptr) (phase : Ptr → Phase) (c : Ptr) (a : Phase)
    → c ∉ ts
    → lowered_by ts (update_at phase c a) ≡ lowered_by ts phase
lowered_by-out [] phase c a out = refl
lowered_by-out (t ∷ ts) phase c a out =
    let other : (t == c) ≡ false = ground arith in
    let rest = lowered_by-out ts phase c a (ground arith) in rw (other, rest) refl

-- the number after a task has changed its phase
pub lowered_by-update :
    (ts : List Ptr) (phase : Ptr → Phase) (c : Ptr) (a : Phase)
    → Distinct ts
    → c ∈ ts
    → lowered_by ts (update_at phase c a) + weight (phase c) ≡ lowered_by ts phase + weight a
lowered_by-update [] phase c a d i = cc
lowered_by-update (t ∷ ts) phase c a d i = elim (Bool-cases (t == c)) [
  | inl e ↦
      let t_c = (==_iff t c).0 e in
      let rest = lowered_by-out ts phase c a (subst (λ x. x ∉ ts) t_c d.0) in
      rw e (omega (arith, rest, ap (λ x. weight (phase x)) t_c))
  | inr e ↦
      let rest = lowered_by-update ts phase c a d.1 (ground arith) in rw e (omega (arith, rest))
]

weight-one : (a : Phase) → has_lowered a ≡ true → weight a ≡ 1
weight-one a h = rw h refl

pub lowered_by-some :
    (ts : List Ptr) (phase : Ptr → Phase) (t : Ptr)
    → t ∈ ts
    → has_lowered (phase t) ≡ true
    → 1 ≤ lowered_by ts phase
lowered_by-some [] phase t i h = cc
lowered_by-some (u ∷ ts) phase t i h = elim (Bool-cases (t == u)) [
  | inl e ↦ omega (arith, ap (λ x. weight (phase x)) ((==_iff t u).0 e), weight-one (phase t) h)
  | inr e ↦ omega (arith, lowered_by-some ts phase t (ground arith) h)
]

-- Two tasks of which both have lowered the value are one, if the number is one.
pub lowered_by-one :
    (ts : List Ptr) (phase : Ptr → Phase) (t u : Ptr)
    → t ∈ ts
    → u ∈ ts
    → has_lowered (phase t) ≡ true
    → has_lowered (phase u) ≡ true
    → lowered_by ts phase ≤ 1
    → t ≡ u
lowered_by-one [] phase t u i j ht hu one = cc
lowered_by-one (v ∷ ts) phase t u i j ht hu one = elim (Bool-cases (t == v)) [
  | inl tv ↦ elim (Bool-cases (u == v)) [
    | inl uv ↦ ground arith
    | inr uv ↦ absurd (
        omega (
          arith,
          one,
          lowered_by-some ts phase u (ground arith) hu,
          ap (λ x. weight (phase x)) ((==_iff t v).0 tv),
          weight-one (phase t) ht,
        ))
  ]
  | inr tv ↦ elim (Bool-cases (u == v)) [
    | inl uv ↦ absurd (
        omega (
          arith,
          one,
          lowered_by-some ts phase t (ground arith) ht,
          ap (λ x. weight (phase x)) ((==_iff u v).0 uv),
          weight-one (phase u) hu,
        ))
    | inr uv ↦ lowered_by-one ts phase t u (ground arith) (ground arith) ht hu (omega arith)
  ]
]

pub lowered_by-none :
    (ts : List Ptr) (phase : Ptr → Phase)
    → ((t : Ptr) → has_lowered (phase t) ≡ false)
    → lowered_by ts phase ≡ 0
lowered_by-none [] phase h = refl
lowered_by-none (t ∷ ts) phase h = rw (h t, lowered_by-none ts phase h) (omega arith)
