-- ===== src/Life/Joined.antt =====
-- A new task joins the list of the ready tasks and that of all tasks.
use lutf.Base.{
  ℕ, ◌∙◌, ◌%◌, ◌<◌, ◌≤◌, ◌≡◌, refl, false, List, [], ◌∷◌, ◌++◌, arith, ok, Returns-eq, ap, length,
  has, has-append, ◌∈◌, ◌∉◌, Apart, suc,
}
use lutf.Life.Made.{own_nodes, zeroed, zeroed-same}
use lutf.Lists.{Ptr, Links, tail, list_append, elem_find}
use lutf.Lists.Chain.{IsList, IsList-frame, nodes}
use lutf.Lists.Read.{elem_find-has}
use lutf.Lists.Write.{list_append-snoc}
use lutf.Store.{general_tag, all_list_tag, task_ready_list, task_all_list}
use lutf.Tasks.Queue.{
  IsTask, AreTasks, AreTasks-append, tags, has-tags, IsReady, IsQueue-find, IsQueue-append,
  IsQueue-frame,
}

abbrev pub all_tags : List Ptr → List Ptr
all_tags [] = []
all_tags (t ∷ ts) = all_list_tag t ∷ all_tags ts

-- The list of all tasks holds the tasks `us`, in this order.
pub record IsAll (m : Links) (us : List Ptr) : Type 0 where
  pub list : IsList m task_all_list (all_tags us)
  pub tasks : AreTasks us

pub all_tags-append : (ts us : List Ptr) → all_tags (ts ++ us) ≡ all_tags ts ++ all_tags us
all_tags-append [] us = refl
all_tags-append (t ∷ ts) us = ap (λ xs. all_list_tag t ∷ xs) (all_tags-append ts us)

length-all_tags : (ts : List Ptr) → length (all_tags ts) ≡ length ts
length-all_tags [] = refl
length-all_tags (t ∷ ts) = ap suc (length-all_tags ts)

has-all_tags : (t : Ptr) (ts : List Ptr) → has (all_list_tag t) (all_tags ts) ≡ has t ts
has-all_tags t [] = refl
has-all_tags t (u ∷ ts) = ground (arith, has-all_tags t ts)

-- where the nodes of tasks lie
pub tags-place : (p : Ptr) (ts : List Ptr) → AreTasks ts → p ∈ tags ts → (p % 4 ≡ 1) × (100 ≤ p)
tags-place p [] h i = ground arith
tags-place p (t ∷ ts) h i = ground (arith, tags-place p ts h.1, h.0)

pub all_tags-place :
    (p : Ptr) (ts : List Ptr) → AreTasks ts → p ∈ all_tags ts → (p % 4 ≡ 2) × (100 ≤ p)
all_tags-place p [] h i = ground arith
all_tags-place p (t ∷ ts) h i = ground (arith, all_tags-place p ts h.1, h.0)

module _ {t : Ptr} (task : IsTask t) where
  ready-Apart :
      (ts : List Ptr) → AreTasks ts → t ∉ ts → Apart (nodes task_ready_list (tags ts)) (own_nodes t)
  ready-Apart ts tasks out p i = ground (
    arith,
    tags-place p ts tasks,
    has-append p (tags ts) (tail task_ready_list ∷ []),
    has-tags t ts,
    task.0,
    task.1,
  )

  all-Apart :
      (us : List Ptr)
      → AreTasks us
      → t ∉ us
      → Apart (nodes task_all_list (all_tags us)) (own_nodes t)
  all-Apart us tasks out p i = ground (
    arith,
    all_tags-place p us tasks,
    has-append p (all_tags us) (tail task_all_list ∷ []),
    has-all_tags t us,
    task.0,
    task.1,
  )

  -- the nodes of the two lists are apart, that of a new task included
  lists-Apart :
      (ts us : List Ptr)
      → AreTasks ts
      → AreTasks us
      → Apart (nodes task_all_list (all_tags us)) (general_tag t ∷ nodes task_ready_list (tags ts))
  lists-Apart ts us ready all p i = ground (
    arith,
    tags-place p ts ready,
    all_tags-place p us all,
    has-append p (tags ts) (tail task_ready_list ∷ []),
    has-append p (all_tags us) (tail task_all_list ∷ []),
    task.0,
    task.1,
  )

  ready-Apart_all :
      (ts us : List Ptr)
      → AreTasks ts
      → AreTasks us
      → Apart (nodes task_ready_list (tags ts)) (all_list_tag t ∷ nodes task_all_list (all_tags us))
  ready-Apart_all ts us ready all p i = ground (
    arith,
    tags-place p ts ready,
    all_tags-place p us all,
    has-append p (tags ts) (tail task_ready_list ∷ []),
    has-append p (all_tags us) (tail task_all_list ∷ []),
    task.0,
    task.1,
  )

  all_tag-new :
      (us : List Ptr) → AreTasks us → t ∉ us → all_list_tag t ∉ nodes task_all_list (all_tags us)
  all_tag-new us tasks out = ground (
    arith,
    has-all_tags t us,
    has-append (all_list_tag t) (all_tags us) (tail task_all_list ∷ []),
    task.0,
  )

-- The links `m₁` and `m₂` after a new task has joined one list and then the other.
pub record Joined (rounds : ℕ) (t : Ptr) (m : Links) (ts us : List Ptr) : Type 0 where
  pub m₁ : Links
  pub m₂ : Links
  pub not_ready : elem_find rounds task_ready_list (general_tag t) m ≡ ok false m
  pub append : list_append task_ready_list (general_tag t) m ≡ ok tt m₁
  pub not_known : elem_find rounds task_all_list (all_list_tag t) m₁ ≡ ok false m₁
  pub append_all : list_append task_all_list (all_list_tag t) m₁ ≡ ok tt m₂
  pub ready : IsReady m₂ (ts ++ (t ∷ []))
  pub all : IsAll m₂ (us ++ (t ∷ []))
  pub spared :
      (p : Ptr)
      → p ∉ (general_tag t ∷ nodes task_ready_list (tags ts))
      → p ∉ (all_list_tag t ∷ nodes task_all_list (all_tags us))
      → (m₂.next p ≡ m.next p) × (m₂.prev p ≡ m.prev p)

pub zeroed-Joined :
    (rounds : ℕ) (t : Ptr) (m : Links) (ts us : List Ptr)
    → IsReady m ts
    → IsAll m us
    → IsTask t
    → t ∉ ts
    → t ∉ us
    → length ts < rounds
    → length us < rounds
    → Joined rounds t (zeroed t m) ts us
zeroed-Joined rounds t m ts us r all task new_ready new_all lt lu =
    let z = zeroed t m in
    let same = zeroed-same t m in
    let r' = IsQueue-frame (own_nodes t) r same (ready-Apart task ts r.tasks new_ready) in
    let all' = IsList-frame (own_nodes t) all.list same (all-Apart task us all.tasks new_all) in
    let (m₁, append, r₁, spared) = IsQueue-append r' t task new_ready in
    let all₁ =
      IsList-frame (general_tag t ∷ nodes task_ready_list (tags ts)) all' spared
        (lists-Apart task ts us r.tasks all.tasks) in
    let (_, m₂, append_all, (all₂, spared₂)) = Returns-eq (
      list_append-snoc (all_list_tag t) all₁ (all_tag-new task us all.tasks new_all)
        (omega arith)) in
    record {
      m₁ = m₁;
      m₂ = m₂;
      not_ready = rw new_ready at (IsQueue-find r' rounds t lt);
      append = append;
      not_known =
          rw (has-all_tags t us, new_all) at
            (elem_find-has rounds (all_list_tag t) all₁ (omega (arith, length-all_tags us, lu)));
      append_all = append_all;
      ready =
          IsQueue-frame (all_list_tag t ∷ nodes task_all_list (all_tags us)) r₁ spared₂
            (ready-Apart_all task (ts ++ (t ∷ [])) us r₁.tasks all.tasks);
      all = record {
        list = rw (all_tags-append us (t ∷ [])) all₂;
        tasks = AreTasks-append us (t ∷ []) all.tasks (task, tt);
      };
      spared = λ p out out'.
          ((spared₂ p out').0 ∙ (spared p out).0, (spared₂ p out').1 ∙ (spared p out).1);
    }
