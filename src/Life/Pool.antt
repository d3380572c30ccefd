-- ===== src/Life/Pool.antt =====
-- The pool of ended tasks: what `task_start` and `clean_dead_task` do when it is not empty.
use lutf.Base.{
  ℕ, suc, ◌+◌, ◌-◌, ◌≤◌, ◌≡◌, refl, ◌≢◌, ◌==◌, false, List, ◌∷◌, arith, ok, spin, Returns-eq,
}
use lutf.Base.Int.{ℤ, pos}
use lutf.Lists.{Ptr, null}
use lutf.Lists.Chain.{IsList}
use lutf.Lists.Write.{list_pop-cons}
use lutf.Lists.Read.{list_empty-is_nil}
use lutf.Store.{Store, task_died, pool_tag, task_pool_list}
use lutf.Store.Access.{get_task, interrupt_disable}
use lutf.Life.{take_struct, task_start, clean_loop, clean_dead_task, clean_count, same_int}

-- A task gets into the pool as it ends, with the status TASK_DIED. `task_start` takes the first task
-- of the pool, and stops at its assertion that the status is another one.
pub task_start_stuck :
    (rounds entrance : ℕ) (name : List ℕ) (prio : ℤ) (function func_arg : ℕ) (s : Store) (t : Ptr)
    (xs : List Ptr)
    → IsList s.links task_pool_list (pool_tag t ∷ xs)
    → t ≢ null
    → (s.task t).status ≡ task_died
    → (s' : Store) × (task_start rounds entrance name prio function func_arg s ≡ spin s')
unfolding task_start take_struct interrupt_disable get_task
task_start_stuck rounds entrance name prio function func_arg s t xs is ht died =
    let (_, m, eq, leaves) = Returns-eq (list_pop-cons is) in
    let same : t + 3 - 3 ≡ t = omega arith in
    let there : (t == null) ≡ false = ground arith in
    (
      record s { links = m; unmasked = false },
      rw (list_empty-is_nil (pool_tag t ∷ xs) is, eq, leaves.0, same, there, died) refl,
    )

-- With a task in the pool and eight tasks or more, `clean_dead_task` frees none: its loop goes on only
-- while the pool is empty or nothing is left to clean.
pub clean_dead_task_idle :
    (rounds : ℕ) (s : Store) (x : Ptr) (xs : List Ptr) (n : ℕ)
    → IsList s.links task_pool_list (x ∷ xs)
    → s.task_all_nums ≡ pos n
    → 8 ≤ n
    → clean_dead_task (suc rounds) s ≡ ok tt s
unfolding clean_dead_task clean_loop
clean_dead_task_idle rounds s x xs n is nums many =
    let some : same_int (clean_count (pos n)) (pos 0) ≡ false = ground arith in
    rw (list_empty-is_nil (x ∷ xs) is, nums, list_empty-is_nil (x ∷ xs) is, some) refl
