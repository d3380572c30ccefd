-- ===== src/Lists/Tests.antt =====
-- The theorems about lists at small lists, and a run of the operations.
use lutf.Base.{ℕ, refl, ◌≡◌, [], ◌∷◌, true, arith, Returns, Run, ok, ◌>>=◌, ◌>>◌, Cmd}
use lutf.Samples.{busy_links, busy_ready}
use lutf.Lists.{
  Links, list_init, list_push, list_append, list_pop, list_remove, list_len, elem_find,
  list_len_from, get_next, get_prev, set_next, set_prev, list_insert_before,
}
use lutf.Lists.Chain.{nodes}
use lutf.Lists.Link.{Leaves, insert-Leaves, remove-Leaves}
use lutf.Lists.Read.{elem_find-has}

abbrev zeros : Links
zeros = record { next = λ _. 0; prev = λ _. 0 }

-- push 10, append 20, push 30, remove 10, pop, and the length that is left
script : Cmd Links (ℕ × ℕ)
unfolding list_init list_push list_append list_remove list_pop list_len list_insert_before get_next
    get_prev set_next set_prev list_len_from
script = do
  list_init 2
  list_push 2 10
  list_append 2 20
  list_push 2 30
  list_remove 10
  first ← list_pop 2
  n ← list_len 5 2
  λ m. ok (first, n) m

-- the result alone
abbrev result : {A : Type 0} → A → Run Links A → A
result d (ok a m) = a
result d r = d

result-script : result (0, 0) (script zeros) ≡ (30, 1)
unfolding script
result-script = refl

insert-Leaves_example :
    Returns
      (Leaves busy_links 2 (101 ∷ 200 ∷ 105 ∷ []) (200 ∷ nodes 2 (101 ∷ 105 ∷ [])))
      (list_insert_before 105 200 busy_links)
insert-Leaves_example = insert-Leaves (101 ∷ []) (105 ∷ []) 200 busy_ready.list refl (omega arith)

remove-Leaves_example :
    Returns (Leaves busy_links 2 (101 ∷ []) (nodes 2 (101 ∷ 105 ∷ []))) (list_remove 105 busy_links)
remove-Leaves_example = remove-Leaves (101 ∷ []) [] 105 busy_ready.list

elem_find-has_example : elem_find 3 2 105 busy_links ≡ ok true busy_links
elem_find-has_example = elem_find-has 3 105 busy_ready.list (omega arith)
