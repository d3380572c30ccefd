-- ===== src/Tasks/Queue.antt =====
-- The ready list, and any list of tasks that wait, as a queue of tasks.
use lutf.Base.{
  ℕ, suc, ◌%◌, ◌≤◌, ◌<◌, ◌≡◌, refl, List, [], ◌∷◌, ◌++◌, arith, ok, has, ◌∉◌, has-append,
  Returns-eq, length, ap, Apart, Apart,
}
use lutf.Lists.{Ptr, Links, tail, list_append, list_push, list_pop, list_empty, elem_find}
use lutf.Lists.Chain.{nodes, IsList, SameOutside, IsList-frame}
use lutf.Lists.Write.{list_append-snoc, list_push-cons, list_pop-cons}
use lutf.Lists.Read.{is_nil, elem_find-has, list_empty-is_nil}
use lutf.Store.{general_tag, elem2entry, general_tag_offset, task_ready_list}

-- Task structures lie above the global lists and locks, and keep apart from one another.
abbrev pub IsTask : Ptr → Type 0
IsTask t = (100 ≤ t) × (t % 4 ≡ 0)

abbrev pub AreTasks : List Ptr → Type 0
AreTasks [] = Unit
AreTasks (t ∷ ts) = IsTask t × AreTasks ts

-- the list nodes by which tasks stand in a queue
abbrev pub tags : List Ptr → List Ptr
tags [] = []
tags (t ∷ ts) = general_tag t ∷ tags ts

-- The list at `l` holds the tasks `ts`, in this order. The lists of tasks lie below the tasks.
pub record IsQueue (m : Links) (l : Ptr) (ts : List Ptr) : Type 0 where
  pub list : IsList m l (tags ts)
  pub tasks : AreTasks ts
  pub place : l < 99

-- The tasks `ts` are ready, in this order.
abbrev pub IsReady : Links → List Ptr → Type 0
IsReady m ts = IsQueue m task_ready_list ts

pub tags-append : (ts us : List Ptr) → tags (ts ++ us) ≡ tags ts ++ tags us
tags-append [] us = refl
tags-append (t ∷ ts) us = ap (λ xs. general_tag t ∷ xs) (tags-append ts us)

pub AreTasks-append : (ts us : List Ptr) → AreTasks ts → AreTasks us → AreTasks (ts ++ us)
AreTasks-append [] us h k = k
AreTasks-append (t ∷ ts) us h k = (h.0, AreTasks-append ts us h.1 k)

pub has-tags : (t : Ptr) (ts : List Ptr) → has (general_tag t) (tags ts) ≡ has t ts
has-tags t [] = refl
has-tags t (u ∷ ts) = ground (arith, has-tags t ts)

pub length-tags : (ts : List Ptr) → length (tags ts) ≡ length ts
length-tags [] = refl
length-tags (t ∷ ts) = ap suc (length-tags ts)

pub elem2entry-general_tag : (t : Ptr) → elem2entry general_tag_offset (general_tag t) ≡ t
elem2entry-general_tag t = omega arith

-- the node of a task that is not in the queue is none of its nodes
pub tag-not_mem :
    (l t : Ptr) (ts : List Ptr) → l < 99 → IsTask t → t ∉ ts → general_tag t ∉ nodes l (tags ts)
tag-not_mem l t ts hl h out =
    ground (arith, has-append (general_tag t) (tags ts) (tail l ∷ []), has-tags t ts)

module _ {m : Links} {l : Ptr} {ts : List Ptr} (h : IsQueue m l ts) where
  pub IsQueue-find :
      (rounds : ℕ) (t : Ptr)
      → length ts < rounds
      → elem_find rounds l (general_tag t) m ≡ ok (has t ts) m
  IsQueue-find rounds t lt =
      rw (← has-tags t ts)
        (elem_find-has rounds (general_tag t) h.list (omega (arith, length-tags ts)))

  pub IsQueue-append :
      (t : Ptr)
      → IsTask t
      → t ∉ ts
      → (m' : Links) × (list_append l (general_tag t) m ≡ ok tt m')
        × IsQueue m' l (ts ++ (t ∷ []))
        × SameOutside (general_tag t ∷ nodes l (tags ts)) m m'
  IsQueue-append t ht out =
      let new = tag-not_mem l t ts h.place ht out in
      let (_, m', eq, leaves) =
        Returns-eq (list_append-snoc (general_tag t) h.list new (omega arith)) in
      (
        m',
        eq,
        record {
          list = rw (tags-append ts (t ∷ [])) leaves.0;
          tasks = AreTasks-append ts (t ∷ []) h.tasks (ht, tt);
          place = h.place;
        },
        leaves.1,
      )

  pub IsQueue-push :
      (t : Ptr)
      → IsTask t
      → t ∉ ts
      → (m' : Links) × (list_push l (general_tag t) m ≡ ok tt m')
        × IsQueue m' l (t ∷ ts)
        × SameOutside (general_tag t ∷ nodes l (tags ts)) m m'
  IsQueue-push t ht out =
      let new = tag-not_mem l t ts h.place ht out in
      let (_, m', eq, leaves) =
        Returns-eq (list_push-cons (general_tag t) h.list new (omega arith)) in
      (m', eq, record { list = leaves.0; tasks = (ht, h.tasks); place = h.place }, leaves.1)

pub IsQueue-empty :
    {m : Links} {l : Ptr} (ts : List Ptr)
    → IsQueue m l ts
    → list_empty l m ≡ ok (is_nil (tags ts)) m
IsQueue-empty ts h = list_empty-is_nil (tags ts) h.list

pub IsQueue-pop :
    {m : Links} {l : Ptr} (t : Ptr) (ts : List Ptr)
    → IsQueue m l (t ∷ ts)
    → (m' : Links) × (list_pop l m ≡ ok (general_tag t) m')
      × IsQueue m' l ts
      × SameOutside (nodes l (tags (t ∷ ts))) m m'
IsQueue-pop t ts h =
    let (e, m', eq, popped) = Returns-eq (list_pop-cons h.list) in
    (
      m',
      rw popped.0 at eq,
      record { list = popped.1.0; tasks = h.tasks.1; place = h.place },
      popped.1.1,
    )

-- A queue holds a task once: the first one is not among the rest.
pub IsQueue-Distinct :
    {m : Links} {l : Ptr} (t : Ptr) (ts : List Ptr) → IsQueue m l (t ∷ ts) → t ∉ ts
IsQueue-Distinct {l} t ts h =
    ground
      (arith, h.list.distinct, has-tags t ts, has-append (general_tag t) (tags ts) (tail l ∷ []))

pub IsQueue-frame :
    {m m' : Links} {l : Ptr} {ts : List Ptr} (ns : List Ptr)
    → IsQueue m l ts
    → SameOutside ns m m'
    → Apart (nodes l (tags ts)) ns
    → IsQueue m' l ts
IsQueue-frame ns h same apart = record {
  list = IsList-frame ns h.list same apart;
  tasks = h.tasks;
  place = h.place;
}
