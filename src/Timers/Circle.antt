-- ===== src/Timers/Circle.antt =====
-- What the list operations of src/interrupt/timer.c do to circular lists, as sequences.
use mathlib.Core.List.{append-nil}
use lutf.Base.{
  ◌≡◌, refl, ◌≢◌, List, [], ◌∷◌, ◌++◌, arith, ok, Returns, returns, ◌∈◌, ◌∉◌, Distinct, Apart,
  has-append, Distinct-insert,
}
use lutf.Lists.{Ptr, null, Links, update}
use lutf.Lists.Chain.{
  Chain, SameOutside, last, last-mem, prev-last, Chain-join, Chain-frame, Chain-relink,
}
use lutf.Timers.{
  list_timer_insert, list_timer_insert_tail, list_timer_replace, list_timer_replace_init,
}

-- The circular list with its head at `h` holds `xs`.
pub record IsCircle (m : Links) (h : Ptr) (xs : List Ptr) : Type 0 where
  pub chain : Chain m h xs h
  pub distinct : Distinct (h ∷ xs)
  pub not_null : null ∉ (h ∷ xs)

pub IsCircle-frame :
    {m m' : Links} {h : Ptr} {xs : List Ptr} (ns : List Ptr)
    → IsCircle m h xs
    → SameOutside ns m m'
    → Apart (h ∷ xs) ns
    → IsCircle m' h xs
IsCircle-frame {m} {m'} {h} {xs} ns is same apart = record {
  chain =
      Chain-frame m m' h xs h (λ p i. (same p (apart p i)).0)
        (λ p i. (same p (apart p (ground (arith, has-append p xs (h ∷ []))))).1) is.chain;
  distinct = is.distinct;
  not_null = is.not_null;
}

-- the links after `list_timer_insert e p h`
abbrev joined : Links → (p e h : Ptr) → Links
joined m p e h = record {
  next = update (update m.next e h) p e;
  prev = update (update m.prev h e) e p;
}

insert_tail_lem :
    (m : Links) (p e h : Ptr)
    → h ≢ null
    → e ≢ null
    → p ≢ null
    → m.prev h ≡ p
    → list_timer_insert_tail e h m ≡ ok tt (joined m p e h)
unfolding list_timer_insert_tail list_timer_insert
insert_tail_lem m p e h hh he hp q = ground arith

module _ {m : Links} {h : Ptr} {xs : List Ptr} (e : Ptr) where
  joined-IsCircle :
      {p : Ptr}
      → p ≡ last h xs
      → p ∈ (h ∷ xs)
      → IsCircle m h xs
      → e ∉ (h ∷ xs)
      → e ≢ null
      → IsCircle (joined m p e h) h (xs ++ (e ∷ []))
  joined-IsCircle {p} here p_mem is new ne = record {
    chain =
        Chain-join (joined m p e h) h xs (e ∷ []) h
          (Chain-relink m (joined m p e h) h xs h e is.chain (ground arith) (ground arith)
            (λ q i n. ground arith) (λ q i. ground (arith, is.distinct.0)) is.distinct)
          (ground (arith, new, p_mem), ground (arith, new, p_mem));
    distinct = Distinct-insert (h ∷ xs) [] e (rw append-nil is.distinct) (rw append-nil new);
    not_null = ground (arith, is.not_null, has-append null xs (e ∷ []));
  }

  -- `list_timer_insert_tail` puts a new node, not NULL, last in the list; no node but it and those of
  -- the list is written.
  pub insert_tail-IsCircle :
      IsCircle m h xs
      → e ∉ (h ∷ xs)
      → e ≢ null
      → Returns
          (λ _ m'. IsCircle m' h (xs ++ (e ∷ [])) × SameOutside (e ∷ h ∷ xs) m m')
          (list_timer_insert_tail e h m)
  insert_tail-IsCircle is new ne =
      let p_mem : last h xs ∈ (h ∷ xs) = last-mem h xs in
      rw
        (insert_tail_lem m (last h xs) e h (ground (arith, is.not_null)) ne
          (ground (arith, is.not_null, p_mem)) (prev-last m h xs h is.chain))
        (returns (joined-IsCircle refl p_mem is new ne, λ q o. ground (arith, p_mem)))

-- the links after `list_timer_replace_init a b`, where the list at `a` is empty
abbrev moved_empty : Links → (a b : Ptr) → Links
moved_empty m a b = record {
  next = update (update (update m.next b a) b b) a a;
  prev = update (update (update m.prev a b) b b) a a;
}

-- and where it leads from `n` to `p`
abbrev moved : Links → (a b n p : Ptr) → Links
moved m a b n p = record {
  next = update (update (update m.next b n) p b) a a;
  prev = update (update (update m.prev n b) b p) a a;
}

replace_init_empty :
    (m : Links) (a b : Ptr)
    → a ≢ null
    → b ≢ null
    → a ≢ b
    → m.next a ≡ a
    → m.prev a ≡ a
    → list_timer_replace_init a b m ≡ ok tt (moved_empty m a b)
unfolding list_timer_replace_init list_timer_replace
replace_init_empty m a b ha hb ab hn hp = ground arith

replace_init_lem :
    (m : Links) (a b n p : Ptr)
    → a ≢ null
    → b ≢ null
    → n ≢ null
    → p ≢ null
    → a ≢ b
    → n ≢ a
    → n ≢ b
    → m.next a ≡ n
    → m.prev a ≡ p
    → list_timer_replace_init a b m ≡ ok tt (moved m a b n p)
unfolding list_timer_replace_init list_timer_replace
replace_init_lem m a b n p ha hb hn hp ab na nb en ep = ground arith

moved-Chain :
    (m : Links) (a b x : Ptr) (xs : List Ptr)
    → Chain m a (x ∷ xs) a
    → Distinct (a ∷ x ∷ xs)
    → b ∉ (a ∷ x ∷ xs)
    → Chain (moved m a b x (last x xs)) b (x ∷ xs) b
moved-Chain m a b x xs c d new =
    let p_mem : last x xs ∈ (x ∷ xs) = last-mem x xs in
    let m' = moved m a b x (last x xs) in
    (
      ground (arith, d, new, p_mem),
      ground (arith, d, new, p_mem),
      Chain-relink m m' x xs a b c.2 (ground (arith, d, new, p_mem)) (ground (arith, d, new, p_mem))
          (λ q i n. ground (arith, d, new)) (λ q i. ground (arith, d, new)) d.1,
    )

-- `list_timer_replace_init` moves the elements of a list to a new head, not NULL, and leaves the old
-- list empty; no node but the two heads and the elements is written.
pub replace_init-IsCircle :
    {m : Links} (a b : Ptr) (xs : List Ptr)
    → IsCircle m a xs
    → b ∉ (a ∷ xs)
    → b ≢ null
    → Returns
        (λ _ m'. IsCircle m' b xs × IsCircle m' a [] × SameOutside (b ∷ a ∷ xs) m m')
        (list_timer_replace_init a b m)
replace_init-IsCircle {m} a b [] is new hb =
    rw
      (replace_init_empty m a b (ground (arith, is.not_null)) hb (ground arith) is.chain.0
        is.chain.1)
      (returns (
        record { chain = ground arith; distinct = ground arith; not_null = ground arith },
        record {
          chain = ground arith;
          distinct = ground arith;
          not_null = ground (arith, is.not_null);
        },
        λ q o. ground arith,
      ))
replace_init-IsCircle {m} a b (x ∷ xs) is new hb =
    let p_mem : last x xs ∈ (x ∷ xs) = last-mem x xs in
    rw
      (replace_init_lem m a b x (last x xs) (ground (arith, is.not_null)) hb
        (ground (arith, is.not_null)) (ground (arith, is.not_null, p_mem)) (ground arith)
        (ground (arith, is.distinct)) (ground arith) is.chain.0 (prev-last m x xs a is.chain.2))
      (returns (
        record {
          chain = moved-Chain m a b x xs is.chain is.distinct new;
          distinct = (ground (arith, new), is.distinct.1);
          not_null = ground (arith, is.not_null);
        },
        record {
          chain = ground (arith, is.distinct, p_mem, new);
          distinct = ground arith;
          not_null = ground (arith, is.not_null);
        },
        λ q o. ground (arith, p_mem),
      ))
