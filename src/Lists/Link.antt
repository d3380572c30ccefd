-- ===== src/Lists/Link.antt =====
-- What the pointer writes of `list_insert_before` and `list_remove` do to a list: between two
-- parts of the sequence an element comes, or goes.
use lutf.Base.{
  ◌≡◌, refl, ◌≢◌, List, [], ◌∷◌, ◌++◌, arith, ok, Returns, returns, ◌∈◌, ◌∉◌, Distinct, has-append,
  Distinct-left, Distinct-right,
}
use lutf.Lists.{Ptr, null, Links, update, tail, list_insert_before, list_remove}
use lutf.Lists.Chain.{
  Chain, nodes, IsList, SameOutside, last, last-mem, prev-last, front, Rest, Chain-left, Chain-Rest,
  Chain-join, Rest-frame, Chain-relink,
}
use lutf.Lists.Nodes.{
  ends, has-nodes, has-nodes_insert, Distinct-parts, nodes-insert, nodes-drop, nodes-middle,
  nodes-apart, front-mem,
}

-- the links after `list_insert_before c e`, where `p` is in front of `c`
abbrev linked : Links → (p e c : Ptr) → Links
linked m p e c = record {
  next = update (update m.next p e) e c;
  prev = update (update m.prev e p) c e;
}

-- the links after `list_remove` of the node between `p` and `n`
abbrev unlinked : Links → (p n : Ptr) → Links
unlinked m p n = record { next = update m.next p n; prev = update m.prev n p }

insert_before_lem :
    (m : Links) (p e c : Ptr)
    → c ≢ null
    → e ≢ null
    → p ≢ null
    → e ≢ c
    → m.prev c ≡ p
    → list_insert_before c e m ≡ ok tt (linked m p e c)
unfolding list_insert_before
insert_before_lem m p e c hc he hp hec q = ground arith

remove_lem :
    (m : Links) (p e n : Ptr)
    → e ≢ null
    → p ≢ null
    → n ≢ null
    → p ≢ e
    → m.prev e ≡ p
    → m.next e ≡ n
    → list_remove e m ≡ ok tt (unlinked m p n)
unfolding list_remove
remove_lem m p e n he hp hn hpe q r = ground arith

-- what an operation leaves: the list at `l` holds `ys`, and nothing else has changed
abbrev pub Leaves : {A : Type 0} → Links → Ptr → List Ptr → List Ptr → A → Links → Type 0
Leaves m l ys ns _ m' = IsList m' l ys × SameOutside ns m m'

-- Between `xs` and `zs`: `p` in front, `c` behind.
record Gap (m : Links) (l : Ptr) (xs zs : List Ptr) (p c : Ptr) : Type 0 where
  p_mem : p ∈ (l ∷ xs)
  c_mem : c ∈ ends l zs
  left_apart : (q : Ptr) → q ∈ (l ∷ xs) → q ∉ ends l zs
  left : Chain m l xs c
  rest : Rest m zs (tail l)
  back : m.prev c ≡ p

gap :
    {m : Links} {l : Ptr} (xs zs : List Ptr)
    → Chain m l (xs ++ zs) (tail l)
    → Distinct (nodes l (xs ++ zs))
    → Gap m l xs zs (last l xs) (front zs (tail l))
gap {m} {l} xs zs chain distinct = record {
  p_mem = last-mem l xs;
  c_mem = front-mem l xs zs;
  left_apart = λ q. nodes-apart l xs zs q distinct;
  left = Chain-left m l xs zs (tail l) chain;
  rest = Chain-Rest m l xs zs (tail l) chain;
  back = prev-last m l xs (front zs (tail l)) (Chain-left m l xs zs (tail l) chain);
}

Same-linked :
    (m : Links) (l : Ptr) (xs zs : List Ptr) (p e c : Ptr)
    → p ∈ (l ∷ xs)
    → c ∈ ends l zs
    → SameOutside (e ∷ nodes l (xs ++ zs)) m (linked m p e c)
Same-linked m l xs zs p e c pi ci q o =
    ground (arith, has-nodes q l xs zs, has-nodes p l xs zs, has-nodes c l xs zs)

Same-unlinked :
    (m : Links) (l : Ptr) (xs zs : List Ptr) (p e n : Ptr)
    → p ∈ (l ∷ xs)
    → n ∈ ends l zs
    → SameOutside (nodes l (xs ++ (e ∷ zs))) m (unlinked m p n)
Same-unlinked m l xs zs p e n pi ni q o =
    ground (arith, has-nodes_insert q l e xs zs, has-nodes q l xs zs)

module _ {m : Links} {l : Ptr} (xs zs : List Ptr) (e : Ptr) where
  Chain-linked :
      {p : Ptr}
      → Gap m l xs zs p (front zs (tail l))
      → p ≡ last l xs
      → Distinct (nodes l (xs ++ zs))
      → e ∉ (l ∷ xs)
      → e ∉ ends l zs
      → Chain (linked m p e (front zs (tail l))) l (xs ++ (e ∷ zs)) (tail l)
  Chain-linked {p} g here d el er =
      let c = front zs (tail l) in
      let m' = linked m p e c in
      let behind =
        Chain-join m' e [] zs (tail l) (ground arith, ground arith)
          (Rest-frame m m' zs (tail l)
            (λ q i. ground (arith, g.left_apart p g.p_mem, has-append q zs (tail l ∷ [])))
            (λ q i n. ground arith) (Distinct-right (l ∷ xs) (ends l zs) (Distinct-parts l xs zs d))
            g.rest) in
      Chain-join m' l xs (e ∷ zs) (tail l)
        (Chain-relink m m' l xs c e g.left (ground (arith, g.p_mem)) (ground (arith, g.c_mem))
          (λ q i n. ground arith) (λ q i. ground (arith, g.left_apart q, g.c_mem))
          (Distinct-left (l ∷ xs) (ends l zs) (Distinct-parts l xs zs d)))
        behind

  linked-IsList :
      {p : Ptr}
      → Gap m l xs zs p (front zs (tail l))
      → p ≡ last l xs
      → IsList m l (xs ++ zs)
      → e ∉ nodes l (xs ++ zs)
      → e ≢ null
      → IsList (linked m p e (front zs (tail l))) l (xs ++ (e ∷ zs))
  linked-IsList {p} g here is new ne = record {
    chain =
        Chain-linked g here is.distinct (ground (arith, has-nodes e l xs zs))
          (ground (arith, has-nodes e l xs zs));
    distinct = nodes-insert l xs zs e is.distinct new;
    not_null = ground (arith, has-nodes_insert null l e xs zs, is.not_null);
    head_prev = ground (arith, g.left_apart l, g.c_mem, is.head_prev);
    tail_next = ground (
      arith,
      g.left_apart p g.p_mem,
      has-append (tail l) zs (tail l ∷ []),
      is.tail_next,
      has-nodes e l xs zs,
      has-append (tail l) (xs ++ zs) (tail l ∷ []),
    );
  }

  -- `list_insert_before` of a new element, not NULL, at the first node behind `xs` (an element or the
  -- tail sentinel) puts it between `xs` and `zs`; no node but it and those of the list is written.
  pub insert-Leaves :
      IsList m l (xs ++ zs)
      → e ∉ nodes l (xs ++ zs)
      → e ≢ null
      → Returns
          (Leaves m l (xs ++ (e ∷ zs)) (e ∷ nodes l (xs ++ zs)))
          (list_insert_before (front zs (tail l)) e m)
  insert-Leaves is new ne =
      let c = front zs (tail l) in
      let g = gap xs zs is.chain is.distinct in
      rw
        (insert_before_lem m (last l xs) e c
          (ground (arith, g.c_mem, is.not_null, has-nodes null l xs zs)) ne
          (ground (arith, g.p_mem, is.not_null, has-nodes null l xs zs))
          (ground (arith, g.c_mem, has-nodes e l xs zs)) g.back)
        (returns
          (linked-IsList g refl is new ne, Same-linked m l xs zs (last l xs) e c g.p_mem g.c_mem))

  Chain-unlinked :
      {p : Ptr}
      → Gap m l xs (e ∷ zs) p e
      → p ≡ last l xs
      → Distinct (nodes l (xs ++ zs))
      → front zs (tail l) ∈ ends l zs
      → Chain (unlinked m p (front zs (tail l))) l (xs ++ zs) (tail l)
  Chain-unlinked {p} g here d ci =
      let n = front zs (tail l) in
      let m' = unlinked m p n in
      Chain-join m' l xs zs (tail l)
        (Chain-relink m m' l xs e n g.left (ground arith) (ground arith) (λ q i ne. ground arith)
          (λ q i. ground (arith, g.left_apart q))
          (Distinct-left (l ∷ xs) (ends l zs) (Distinct-parts l xs zs d)))
        (Rest-frame m m' zs (tail l)
          (λ q i. ground (arith, g.left_apart p g.p_mem, has-append q zs (tail l ∷ [])))
          (λ q i ne. ground arith) (Distinct-right (l ∷ xs) (ends l zs) (Distinct-parts l xs zs d))
          (Chain-Rest m e [] zs (tail l) g.rest))

  -- `list_remove` of an element takes it out of the list, wherever it stands, and writes no node
  -- outside the list.
  pub remove-Leaves :
      IsList m l (xs ++ (e ∷ zs))
      → Returns (Leaves m l (xs ++ zs) (nodes l (xs ++ (e ∷ zs)))) (list_remove e m)
  remove-Leaves is =
      let n = front zs (tail l) in
      let g = gap xs (e ∷ zs) is.chain is.distinct in
      let d = nodes-drop l xs zs e is.distinct in
      let ni = front-mem l xs zs in
      let apart = nodes-middle l xs zs e is.distinct in
      rw
        (remove_lem m (last l xs) e n (ground (arith, has-nodes null l xs (e ∷ zs), is.not_null))
          (ground (arith, g.p_mem, is.not_null, has-nodes null l xs (e ∷ zs)))
          (ground (arith, ni, has-nodes null l xs (e ∷ zs), is.not_null))
          (ground (arith, g.p_mem, apart)) g.back (Chain-left m e [] zs (tail l) g.rest).0)
        (returns (
          record {
            chain = Chain-unlinked g refl d ni;
            distinct = d;
            not_null = ground (arith, has-nodes_insert null l e xs zs, is.not_null);
            head_prev = ground (arith, g.left_apart l, ni, is.head_prev);
            tail_next = ground (
              arith,
              g.left_apart (last l xs) g.p_mem,
              has-append (tail l) zs (tail l ∷ []),
              is.tail_next,
            );
          },
          Same-unlinked m l xs zs (last l xs) e n g.p_mem ni,
        ))
