-- ===== src/Lists/Write.antt =====
-- The operations of list.c that change a list, on the sequence that the list stands for.
use mathlib.Core.List.{append-nil}
use lutf.Base.{◌≡◌, refl, ◌≢◌, List, [], ◌∷◌, ◌++◌, arith, ok, fault, Returns, returns, ◌∉◌, bind}
use lutf.Lists.{
  Ptr, null, Links, tail, update, list_init, list_push, list_append, list_remove, list_pop,
  get_next,
}
use lutf.Lists.Chain.{nodes, IsList, front, Chain-left}
use lutf.Lists.Link.{Leaves, insert-Leaves, remove-Leaves}

-- the head leads to the first element
pub get_next-front :
    {m : Links} {l : Ptr} {xs : List Ptr} → IsList m l xs → get_next l m ≡ ok (front xs (tail l)) m
unfolding get_next
get_next-front {m} {l} {xs} is = ground (arith, is.not_null, Chain-left m l [] xs (tail l) is.chain)

-- the links after `list_init l`
abbrev fresh_links : Links → Ptr → Links
fresh_links m l = record {
  next = update (update m.next l (tail l)) (tail l) null;
  prev = update (update m.prev l null) (tail l) l;
}

list_init_lem : (m : Links) (l : Ptr) → l ≢ null → list_init l m ≡ ok tt (fresh_links m l)
unfolding list_init
list_init_lem m l h = ground arith

-- `list_init` at an address that is not NULL makes an empty list, and writes its sentinels only.
pub list_init-IsList :
    (m : Links) (l : Ptr) → l ≢ null → Returns (Leaves m l [] (nodes l [])) (list_init l m)
list_init-IsList m l h = rw (list_init_lem m l h) (
    returns (
      record {
        chain = (ground arith, ground arith);
        distinct = ground arith;
        not_null = ground arith;
        head_prev = ground arith;
        tail_next = ground arith;
      },
      ground arith,
    ))

module _ {m : Links} {l : Ptr} {xs : List Ptr} (e : Ptr) where
  -- `list_push` puts a new element, not NULL, first; no node but it and those of the list is written.
  pub list_push-cons :
      IsList m l xs
      → e ∉ nodes l xs
      → e ≢ null
      → Returns (Leaves m l (e ∷ xs) (e ∷ nodes l xs)) (list_push l e m)
  unfolding list_push
  list_push-cons is new ne = rw (get_next-front is) (insert-Leaves [] xs e is new ne)

  -- `list_append` puts a new element, not NULL, last; no node but it and those of the list is
  -- written.
  pub list_append-snoc :
      IsList m l xs
      → e ∉ nodes l xs
      → e ≢ null
      → Returns (Leaves m l (xs ++ (e ∷ [])) (e ∷ nodes l xs)) (list_append l e m)
  unfolding list_append
  list_append-snoc is new ne =
      rw append-nil at
        (insert-Leaves {m = m} {l = l} xs [] e (rw append-nil is) (rw append-nil new) ne)

-- `list_pop` takes the first element off and returns it, and writes no node outside the list.
pub list_pop-cons :
    {m : Links} {l x : Ptr} {xs : List Ptr}
    → IsList m l (x ∷ xs)
    → Returns (λ e m'. (e ≡ x) × Leaves m l xs (nodes l (x ∷ xs)) e m') (list_pop l m)
unfolding list_pop
list_pop-cons {x} {xs} is =
    rw (get_next-front is) (bind (remove-Leaves [] xs x is) λ _ m' leaves. returns (refl, leaves))

-- `list_pop` of an empty list takes the tail sentinel for an element, and writes through its NULL.
list_pop-nil : {m : Links} {l : Ptr} → IsList m l [] → list_pop l m ≡ fault
unfolding list_pop list_remove
list_pop-nil is = ground (arith, is.chain, is.not_null)
