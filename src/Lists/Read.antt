-- ===== src/Lists/Read.antt =====
-- The operations of list.c that only read a list. Each returns, with one round more than there are
-- elements, and leaves the links as they are.
use lutf.Base.{
  ℕ, zero, suc, ◌+◌, ◌%◌, ◌^◌, ◌<◌, ◌≡◌, refl, Bool, true, false, List, [], ◌∷◌, arith, ok, has,
  ◌∉◌, if◌then◌else◌, length, ap, ◌∙◌, Distinct-middle, has-append,
}
use lutf.Lists.{
  Ptr, null, Links, tail, get_next, list_empty, elem_find_from, elem_find, list_traversal_from,
  list_traversal, list_len_from, list_len,
}
use lutf.Lists.Chain.{IsList, front, Rest, Chain-left, Chain-Rest}
use lutf.Lists.Write.{get_next-front}

abbrev pub is_nil : List Ptr → Bool
is_nil [] = true
is_nil (_ ∷ _) = false

-- the first element that a test accepts, NULL if there is none
abbrev pub find_or_null : {A : Type 0} → (Ptr → A → Bool) → A → List Ptr → Ptr
find_or_null f a [] = null
find_or_null f a (x ∷ xs) = if f x a then x else find_or_null f a xs

-- A walk from one element to the tail: what a loop needs of the links.
record Walk (m : Links) (zs : List Ptr) (b : Ptr) : Type 0 where
  rest : Rest m zs b
  no_end : b ∉ zs
  no_null : null ∉ zs

Walk-cons : {m : Links} (z : Ptr) (zs : List Ptr) (b : Ptr) → Walk m (z ∷ zs) b → Walk m zs b
Walk-cons {m} z zs b w = record {
  rest = Chain-Rest m z [] zs b w.rest;
  no_end = ground (arith, w.no_end);
  no_null = ground (arith, w.no_null);
}

next-Walk :
    {m : Links} (z : Ptr) (zs : List Ptr) (b : Ptr)
    → Walk m (z ∷ zs) b
    → get_next z m ≡ ok (front zs b) m
unfolding get_next
next-Walk {m} z zs b w = ground (arith, w.no_null, Chain-left m z [] zs b w.rest)

IsList-Walk : {m : Links} {l : Ptr} {xs : List Ptr} → IsList m l xs → Walk m xs (tail l)
IsList-Walk {m} {l} {xs} is = record {
  rest = Chain-Rest m l [] xs (tail l) is.chain;
  no_end = (Distinct-middle xs [] (tail l) is.distinct.1).0;
  no_null = ground (arith, is.not_null, has-append null xs (tail l ∷ []));
}

elem_find_from-has :
    {m : Links} (k : ℕ) (zs : List Ptr) (b obj : Ptr)
    → Walk m zs b
    → length zs < k
    → elem_find_from k (front zs b) b obj m ≡ ok (has obj zs) m
unfolding elem_find_from
elem_find_from-has zero zs b obj w h = absurd (omega arith)
elem_find_from-has (suc k) [] b obj w h = ground arith
elem_find_from-has (suc k) (z ∷ zs) b obj w h = ground (
  arith,
  w.no_end,
  next-Walk z zs b w,
  elem_find_from-has k zs b obj (Walk-cons z zs b w) (omega arith),
)

-- `elem_find` tells whether the element is in the list, and leaves the links; `rounds` exceeds the
-- length of the list.
pub elem_find-has :
    {m : Links} {l : Ptr} {xs : List Ptr} (rounds : ℕ) (obj : Ptr)
    → IsList m l xs
    → length xs < rounds
    → elem_find rounds l obj m ≡ ok (has obj xs) m
unfolding elem_find
elem_find-has {l} {xs} rounds obj is h =
    rw (get_next-front is) (elem_find_from-has rounds xs (tail l) obj (IsList-Walk is) h)

-- `list_empty` tells whether there are no elements.
pub list_empty-is_nil :
    {m : Links} {l : Ptr} (xs : List Ptr) → IsList m l xs → list_empty l m ≡ ok (is_nil xs) m
unfolding list_empty
list_empty-is_nil [] is = rw (get_next-front is) (ground arith)
list_empty-is_nil {l} (x ∷ xs) is = rw (get_next-front is) (ground (arith, (IsList-Walk is).no_end))

module _ {A : Type 0} (func : Ptr → A → Bool) (arg : A) where
  traversal_from-find :
      {m : Links} (k : ℕ) (zs : List Ptr) (b : Ptr)
      → Walk m zs b
      → length zs < k
      → list_traversal_from k (front zs b) b func arg m ≡ ok (find_or_null func arg zs) m
  unfolding list_traversal_from
  traversal_from-find zero zs b w h = absurd (omega arith)
  traversal_from-find (suc k) [] b w h = ground arith
  traversal_from-find (suc k) (z ∷ zs) b w h = ground (
    arith,
    w.no_end,
    next-Walk z zs b w,
    traversal_from-find k zs b (Walk-cons z zs b w) (omega arith),
  )

  -- `list_traversal` returns the first element that the callback accepts, or NULL if there is none,
  -- and leaves the links; `rounds` exceeds the length of the list.
  pub list_traversal-find :
      {m : Links} {l : Ptr} (rounds : ℕ) (xs : List Ptr)
      → IsList m l xs
      → length xs < rounds
      → list_traversal rounds l func arg m ≡ ok (find_or_null func arg xs) m
  unfolding list_traversal
  list_traversal-find {l} rounds [] is h = rw (get_next-front is, list_empty-is_nil [] is) refl
  list_traversal-find {l} rounds (x ∷ xs) is h =
      rw (get_next-front is, list_empty-is_nil (x ∷ xs) is)
        (traversal_from-find rounds (x ∷ xs) (tail l) (IsList-Walk is) h)

len_from-length :
    {m : Links} (k : ℕ) (zs : List Ptr) (b : Ptr) (len : ℕ)
    → Walk m zs b
    → length zs < k
    → len < 2 ^ 32
    → list_len_from k (front zs b) b len m ≡ ok ((len + length zs) % 2 ^ 32) m
unfolding list_len_from
len_from-length zero zs b len w h small = absurd (omega arith)
len_from-length {m} (suc k) [] b len w h small = ground arith
len_from-length {m} (suc k) (z ∷ zs) b len w h small = ground (
  arith,
  w.no_end,
  next-Walk z zs b w,
  len_from-length k zs b ((len + 1) % 2 ^ 32) (Walk-cons z zs b w) (omega arith) (omega arith),
)

-- `list_len` counts the elements, modulo 2^32, and leaves the links; `rounds` exceeds the length of
-- the list.
pub list_len-length :
    {m : Links} {l : Ptr} {xs : List Ptr} (rounds : ℕ)
    → IsList m l xs
    → length xs < rounds
    → list_len rounds l m ≡ ok (length xs % 2 ^ 32) m
unfolding list_len
list_len-length {m} {l} {xs} rounds is h = rw (get_next-front is) (
    len_from-length rounds xs (tail l) 0 (IsList-Walk is) h (omega arith)
    ∙ ap (λ n. ok n m) (omega arith))
