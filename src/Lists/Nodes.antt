-- ===== src/Lists/Nodes.antt =====
-- The nodes of a list when an element comes or goes.
use mathlib.Core.List.{append_assoc}
use lutf.Base.{
  ◌≡◌, ◌||◌, List, [], ◌∷◌, ◌++◌, arith, has, ◌∈◌, ◌∉◌, Distinct, has-append, Distinct-insert,
  Distinct-drop, Distinct-middle, Distinct-apart,
}
use lutf.Lists.{Ptr, tail}
use lutf.Lists.Chain.{nodes, front}

abbrev pub ends : Ptr → List Ptr → List Ptr
ends l zs = zs ++ (tail l ∷ [])

pub has-nodes :
    (p l : Ptr) (xs zs : List Ptr)
    → has p (nodes l (xs ++ zs)) ≡ (has p (l ∷ xs) || has p (ends l zs))
has-nodes p l xs zs = rw (append_assoc xs zs (tail l ∷ []), has-append p (l ∷ xs) (ends l zs))

-- an element more: the tests on it stand side by side
pub has-nodes_insert :
    (p l e : Ptr) (xs zs : List Ptr)
    → has p (nodes l (xs ++ (e ∷ zs))) ≡ has p (e ∷ nodes l (xs ++ zs))
has-nodes_insert p l e xs zs = ground (arith, has-nodes p l xs (e ∷ zs), has-nodes p l xs zs)

module _ (l : Ptr) (xs zs : List Ptr) where
  pub Distinct-parts : Distinct (nodes l (xs ++ zs)) → Distinct ((l ∷ xs) ++ ends l zs)
  Distinct-parts d = rw (append_assoc xs zs (tail l ∷ [])) at d

  pub nodes-insert :
      (e : Ptr)
      → Distinct (nodes l (xs ++ zs))
      → e ∉ nodes l (xs ++ zs)
      → Distinct (nodes l (xs ++ (e ∷ zs)))
  nodes-insert e d f = rw (append_assoc xs (e ∷ zs) (tail l ∷ [])) (
      Distinct-insert (l ∷ xs) (ends l zs) e (Distinct-parts d)
        (ground (arith, has-nodes e l xs zs, has-append e (l ∷ xs) (ends l zs))))

  pub nodes-drop : (e : Ptr) → Distinct (nodes l (xs ++ (e ∷ zs))) → Distinct (nodes l (xs ++ zs))
  nodes-drop e d =
      rw (append_assoc xs zs (tail l ∷ []))
        (Distinct-drop (l ∷ xs) (ends l zs) e (rw (append_assoc xs (e ∷ zs) (tail l ∷ [])) at d))

  pub nodes-middle :
      (e : Ptr) → Distinct (nodes l (xs ++ (e ∷ zs))) → (e ∉ (l ∷ xs)) × (e ∉ ends l zs)
  nodes-middle e d =
      Distinct-middle (l ∷ xs) (ends l zs) e (rw (append_assoc xs (e ∷ zs) (tail l ∷ [])) at d)

  -- what stands in the left part stands not in the right one
  pub nodes-apart : (p : Ptr) → Distinct (nodes l (xs ++ zs)) → p ∈ (l ∷ xs) → p ∉ ends l zs
  nodes-apart p d = Distinct-apart p (l ∷ xs) (ends l zs) (Distinct-parts d)

  pub front-mem : front zs (tail l) ∈ ends l zs
  front-mem = front_mem zs
    where
      front_mem : (ys : List Ptr) → front ys (tail l) ∈ (ys ++ (tail l ∷ []))
      front_mem [] = ground arith
      front_mem (y ∷ ys) = ground arith
