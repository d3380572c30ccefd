-- ===== src/Lists/Chain.antt =====
-- What a list stands for: the sequence of its elements, and how it survives changes elsewhere.
use lutf.Base.{◌≡◌, ◌≢◌, List, [], ◌∷◌, ◌++◌, arith, ◌∈◌, ◌∉◌, Distinct, Apart, has-append, ◌∙◌}
use lutf.Lists.{Ptr, null, Links, tail}

-- From `a` the links lead through `xs` to `b`, and the links back agree.
abbrev pub Chain : Links → Ptr → List Ptr → Ptr → Type 0
Chain m a [] b = (m.next a ≡ b) × (m.prev b ≡ a)
Chain m a (x ∷ xs) b = (m.next a ≡ x) × (m.prev x ≡ a) × Chain m x xs b

-- the nodes of a list: its sentinels round its elements
abbrev pub nodes : Ptr → List Ptr → List Ptr
nodes l xs = l ∷ (xs ++ (tail l ∷ []))

-- The list at `l` holds `xs`.
pub record IsList (m : Links) (l : Ptr) (xs : List Ptr) : Type 0 where
  pub chain : Chain m l xs (tail l)
  pub distinct : Distinct (nodes l xs)
  pub not_null : null ∉ nodes l xs
  pub head_prev : m.prev l ≡ null
  pub tail_next : m.next (tail l) ≡ null

-- `m'` differs from `m` at most at the nodes `ns`.
abbrev pub SameOutside : List Ptr → Links → Links → Type 0
SameOutside ns m m' = (p : Ptr) → p ∉ ns → (m'.next p ≡ m.next p) × (m'.prev p ≡ m.prev p)

-- the node that follows the sentinel or element in front of `zs`
abbrev pub front : List Ptr → Ptr → Ptr
front [] b = b
front (z ∷ zs) b = z

abbrev pub Rest : Links → List Ptr → Ptr → Type 0
Rest m [] b = Unit
Rest m (z ∷ zs) b = Chain m z zs b

pub last : Ptr → List Ptr → Ptr
last a [] = a
last a (x ∷ xs) = last x xs

pub last-mem : (a : Ptr) (xs : List Ptr) → last a xs ∈ (a ∷ xs)
unfolding last
last-mem a [] = ground arith
last-mem a (x ∷ xs) = ground (arith, last-mem x xs)

module _ (m : Links) where
  pub prev-last : (a : Ptr) (xs : List Ptr) (b : Ptr) → Chain m a xs b → m.prev b ≡ last a xs
  unfolding last
  prev-last a [] b c = c.1
  prev-last a (x ∷ xs) b c = prev-last x xs b c.2

  -- A chain through `xs ++ zs` is a chain through `xs` to the front of what is left, and the rest.
  pub Chain-left :
      (a : Ptr) (xs zs : List Ptr) (b : Ptr) → Chain m a (xs ++ zs) b → Chain m a xs (front zs b)
  Chain-left a [] [] b c = c
  Chain-left a [] (z ∷ zs) b c = (c.0, c.1)
  Chain-left a (x ∷ xs) zs b c = (c.0, c.1, Chain-left x xs zs b c.2)

  pub Chain-Rest : (a : Ptr) (xs zs : List Ptr) (b : Ptr) → Chain m a (xs ++ zs) b → Rest m zs b
  Chain-Rest a [] [] b c = tt
  Chain-Rest a [] (z ∷ zs) b c = c.2
  Chain-Rest a (x ∷ xs) zs b c = Chain-Rest x xs zs b c.2

  pub Chain-join :
      (a : Ptr) (xs zs : List Ptr) (b : Ptr)
      → Chain m a xs (front zs b)
      → Rest m zs b
      → Chain m a (xs ++ zs) b
  Chain-join a [] [] b c r = c
  Chain-join a [] (z ∷ zs) b c r = (c.0, c.1, r)
  Chain-join a (x ∷ xs) zs b c r = (c.0, c.1, Chain-join x xs zs b c.2 r)

-- A chain reads `next` at its first part and `prev` at its last.
pub Chain-frame :
    (m m' : Links) (a : Ptr) (xs : List Ptr) (b : Ptr)
    → ((p : Ptr) → p ∈ (a ∷ xs) → m'.next p ≡ m.next p)
    → ((p : Ptr) → p ∈ (xs ++ (b ∷ [])) → m'.prev p ≡ m.prev p)
    → Chain m a xs b
    → Chain m' a xs b
Chain-frame m m' a [] b hn hp c = (hn a (ground arith) ∙ c.0, hp b (ground arith) ∙ c.1)
Chain-frame m m' a (x ∷ xs) b hn hp c = (
  hn a (ground arith) ∙ c.0,
  hp x (ground arith) ∙ c.1,
  Chain-frame m m' x xs b (λ p i. hn p (ground arith)) (λ p i. hp p (ground arith)) c.2,
)

pub Rest-frame :
    (m m' : Links) (zs : List Ptr) (b : Ptr)
    → ((p : Ptr) → p ∈ zs → m'.next p ≡ m.next p)
    → ((p : Ptr) → p ∈ (zs ++ (b ∷ [])) → p ≢ front zs b → m'.prev p ≡ m.prev p)
    → Distinct (zs ++ (b ∷ []))
    → Rest m zs b
    → Rest m' zs b
Rest-frame m m' [] b hn hp d r = tt
Rest-frame m m' (z ∷ zs) b hn hp d r =
    Chain-frame m m' z zs b hn (λ p i. hp p (ground arith) (ground arith)) r

-- The same nodes lead elsewhere: the last one is relinked to `e`.
pub Chain-relink :
    (m m' : Links) (a : Ptr) (xs : List Ptr) (c e : Ptr)
    → Chain m a xs c
    → m'.next (last a xs) ≡ e
    → m'.prev e ≡ last a xs
    → ((p : Ptr) → p ∈ (a ∷ xs) → p ≢ last a xs → m'.next p ≡ m.next p)
    → ((p : Ptr) → p ∈ xs → m'.prev p ≡ m.prev p)
    → Distinct (a ∷ xs)
    → Chain m' a xs e
unfolding last
Chain-relink m m' a [] c e h n p hn hp d = (n, p)
Chain-relink m m' a (x ∷ xs) c e h n p hn hp d = (
  hn a (ground arith) (ground (arith, last-mem x xs)) ∙ h.0,
  hp x (ground arith) ∙ h.1,
  Chain-relink m m' x xs c e h.2 n p (λ q i. hn q (ground arith)) (λ q i. hp q (ground arith)) d.1,
)

-- A list keeps what it holds under a change that spares its nodes.
pub IsList-frame :
    {m m' : Links} {l : Ptr} {xs : List Ptr} (ns : List Ptr)
    → IsList m l xs
    → SameOutside ns m m'
    → Apart (nodes l xs) ns
    → IsList m' l xs
IsList-frame {m} {m'} {l} {xs} ns is same apart = record {
  chain =
      Chain-frame m m' l xs (tail l)
        (λ p i. (same p (apart p (ground (arith, has-append p xs (tail l ∷ []))))).0)
        (λ p i. (same p (apart p (ground arith))).1) is.chain;
  distinct = is.distinct;
  not_null = is.not_null;
  head_prev = (same l (apart l (ground arith))).1 ∙ is.head_prev;
  tail_next =
      (same (tail l) (apart (tail l) (ground (arith, has-append (tail l) xs (tail l ∷ []))))).0
      ∙ is.tail_next;
}
