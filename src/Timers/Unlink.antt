-- ===== src/Timers/Unlink.antt =====
-- A timer leaves a circular list.
use lutf.Base.{
  ◌≡◌, refl, ◌≢◌, List, [], ◌∷◌, ◌++◌, arith, ok, Returns, returns, ◌∈◌, Distinct, has-append,
  Distinct-left, Distinct-right, Distinct-drop, Distinct-middle, Distinct-apart, Distinct-snoc,
}
use lutf.Lists.{Ptr, null, Links, update}
use lutf.Lists.Chain.{
  Chain, SameOutside, last, last-mem, prev-last, front, Chain-left, Chain-Rest, Chain-join,
  Rest-frame, Chain-relink,
}
use lutf.Timers.{list_timer_unlink}
use lutf.Timers.Circle.{IsCircle}

unlink_lem :
    (m : Links) (p e n : Ptr)
    → e ≢ null
    → p ≢ null
    → n ≢ null
    → p ≢ e
    → m.next e ≡ n
    → m.prev e ≡ p
    → list_timer_unlink e m ≡ ok tt (record { next = update m.next p n; prev = update m.prev n p })
unfolding list_timer_unlink
unlink_lem m p e n he hp hn pe en ep = ground arith

front-mem : (h : Ptr) (zs : List Ptr) → front zs h ∈ (zs ++ (h ∷ []))
front-mem h [] = ground arith
front-mem h (z ∷ zs) = ground arith

module _ (m : Links) (h : Ptr) (xs zs : List Ptr) (e : Ptr) where
  Chain-dropped :
      {p : Ptr}
      → p ≡ last h xs
      → Chain m h (xs ++ (e ∷ zs)) h
      → Distinct (h ∷ (xs ++ (e ∷ zs)))
      → p ∈ (h ∷ xs)
      → front zs h ∈ (zs ++ (h ∷ []))
      → Chain
          (record { next = update m.next p (front zs h); prev = update m.prev (front zs h) p })
          h
          (xs ++ zs)
          h
  Chain-dropped {p} here c d pi ni =
      let n = front zs h in
      let m' : Links = record { next = update m.next p n; prev = update m.prev n p } in
      let apart = λ (q : Ptr). Distinct-apart q (h ∷ xs) (e ∷ zs) d in
      Chain-join m' h xs zs h
        (Chain-relink m m' h xs e n (Chain-left m h xs (e ∷ zs) h c) (ground arith) (ground arith)
          (λ q i ne. ground arith)
          (λ q i. ground (arith, apart q, d.0, has-append h xs (e ∷ zs), has-append n zs (h ∷ [])))
          (Distinct-left (h ∷ xs) (e ∷ zs) d))
        (Rest-frame m m' zs h (λ q i. ground (arith, apart p, has-append p (h ∷ xs) (e ∷ zs)))
          (λ q i ne. ground arith)
          (Distinct-snoc zs h (Distinct-right (h ∷ xs) (e ∷ zs) d).1
            (ground (arith, d.0, has-append h xs (e ∷ zs))))
          (Chain-Rest m e [] zs h (Chain-Rest m h xs (e ∷ zs) h c)))

  -- Taking a node out of a list, wherever it stands: no node outside the list is written.
  pub unlink-IsCircle :
      IsCircle m h (xs ++ (e ∷ zs))
      → Returns
          (λ _ m'. IsCircle m' h (xs ++ zs) × SameOutside (h ∷ (xs ++ (e ∷ zs))) m m')
          (list_timer_unlink e m)
  unlink-IsCircle is =
      let pi : last h xs ∈ (h ∷ xs) = last-mem h xs in
      let ni = front-mem h zs in
      let mid = Distinct-middle (h ∷ xs) zs e is.distinct in
      rw
        (unlink_lem m (last h xs) e (front zs h)
          (ground (arith, is.not_null, has-append null xs (e ∷ zs)))
          (ground (arith, pi, is.not_null, has-append null xs (e ∷ zs)))
          (ground
            (arith, ni, is.not_null, has-append null xs (e ∷ zs), has-append null zs (h ∷ [])))
          (ground (arith, pi, mid))
          (Chain-left m e [] zs h (Chain-Rest m h xs (e ∷ zs) h is.chain)).0
          (prev-last m h xs e (Chain-left m h xs (e ∷ zs) h is.chain)))
        (returns (
          record {
            chain = Chain-dropped refl is.chain is.distinct pi ni;
            distinct = Distinct-drop (h ∷ xs) zs e is.distinct;
            not_null =
                ground (arith, is.not_null, has-append null xs (e ∷ zs), has-append null xs zs);
          },
          λ q o. ground (arith, pi, ni, has-append q xs (e ∷ zs), has-append q zs (h ∷ [])),
        ))
