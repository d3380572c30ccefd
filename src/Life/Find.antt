-- ===== src/Life/Find.antt =====
-- `tid2task`: a task is found by its tid.
use lutf.Base.{
  ℕ, ◌+◌, ◌-◌, ◌<◌, pure, ◌≡◌, refl, ◌==◌, List, [], ◌∷◌, arith, ok, if◌then◌else◌, length, ap, ◌∙◌,
  Bool-cases, inl, inr,
}
use lutf.Base.Int.{ℤ}
use lutf.Lists.{Ptr, null}
use lutf.Lists.Chain.{IsList}
use lutf.Lists.Read.{list_traversal-find, find_or_null}
use lutf.Store.{Store, Task, all_list_tag, elem2entry, all_list_tag_offset, task_all_list}
use lutf.Life.{tid2task, tid_check, same_int}

-- the nodes of the tasks in the list of all tasks
abbrev pub all_tags : List Ptr → List Ptr
all_tags [] = []
all_tags (t ∷ ts) = all_list_tag t ∷ all_tags ts

-- the first of the tasks that has the tid, or NULL
abbrev pub task_with : (Ptr → Task) → ℤ → List Ptr → Ptr
task_with tasks tid [] = null
task_with tasks tid (t ∷ ts) = if same_int (tasks t).tid tid then t else task_with tasks tid ts

length-all_tags : (ts : List Ptr) → length (all_tags ts) ≡ length ts
length-all_tags [] = refl
length-all_tags (t ∷ ts) = rw (length-all_tags ts)

-- what `tid2task` returns for the node that the traversal found
abbrev owner : Ptr → Ptr
owner pelem = if pelem == null then null else elem2entry all_list_tag_offset pelem

answer :
    (pelem : Ptr) (s : Store)
    → (if pelem == null then pure null else pure (elem2entry all_list_tag_offset pelem)) s
      ≡ ok (owner pelem) s
answer pelem s = ground arith

owner-find :
    (tasks : Ptr → Task) (tid : ℤ) (ts : List Ptr)
    → owner (find_or_null (tid_check tasks) tid (all_tags ts)) ≡ task_with tasks tid ts
owner-find tasks tid [] = refl
owner-find tasks tid (t ∷ ts) =
    let same : t + 2 - 2 ≡ t = omega arith in
    elim (Bool-cases (same_int (tasks t).tid tid)) [
      | inl e ↦ rw (same, e) (ground arith)
      | inr n ↦ rw (same, n) (owner-find tasks tid ts)
    ]

-- `tid2task` returns the first of all tasks that has the tid, or NULL if there is none, and changes
-- nothing; `rounds` exceeds the number of tasks.
pub tid2task-task_with :
    (rounds : ℕ) (s : Store) (tid : ℤ) (ts : List Ptr)
    → IsList s.links task_all_list (all_tags ts)
    → length ts < rounds
    → tid2task rounds tid s ≡ ok (task_with s.task tid ts) s
unfolding tid2task
tid2task-task_with rounds s tid ts is lt =
    rw
      (list_traversal-find (tid_check s.task) tid rounds (all_tags ts) is
        (omega (arith, length-all_tags ts)))
      (answer (find_or_null (tid_check s.task) tid (all_tags ts)) s
        ∙ ap (λ p. ok p s) (owner-find s.task tid ts))
