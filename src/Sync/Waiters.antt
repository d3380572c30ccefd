-- ===== src/Sync/Waiters.antt =====
-- The tasks that wait for a semaphore, beside the tasks that are ready: one task stands in one of
-- the queues only, since both use its `general_tag`.
use lutf.Base.{
  ◌+◌, ◌-◌, ◌≤◌, ◌<◌, ◌≡◌, ◌≢◌, refl, List, [], ◌∷◌, ◌++◌, arith, has, ◌∈◌, ◌∉◌, ◌==◌, has-append,
  Apart, ◌∙◌, Bool-cases, inl, inr, ◌⊎◌,
}
use lutf.Lists.{Ptr, Links, tail}
use lutf.Lists.Chain.{nodes, SameOutside}
use lutf.Store.{general_tag, task_ready_list}
use lutf.Tasks.Queue.{IsTask, AreTasks, tags, IsQueue, IsQueue-frame}

-- Locks lie between the ready list and the tasks.
abbrev pub IsLockAddress : Ptr → Type 0
IsLockAddress p = (task_ready_list + 2 ≤ p) × (p < 99)

has-tags_pred : (a : Ptr) (ts : List Ptr) → a ≢ 0 → has a (tags ts) ≡ has (a - 1) ts
has-tags_pred a [] h = refl
has-tags_pred a (t ∷ ts) h = ground (arith, has-tags_pred a ts h)

tags-above : (a : Ptr) (ts : List Ptr) → AreTasks ts → a ∈ tags ts → 100 < a
tags-above a [] h i = ground arith
tags-above a (t ∷ ts) h i = elim (Bool-cases (a == general_tag t)) [
  | inl at ↦ ground arith
  | inr other ↦ tags-above a ts h.1 (ground arith)
]

tags-below : (a : Ptr) (ts : List Ptr) → AreTasks ts → a ≤ 100 → a ∉ tags ts
tags-below a [] h lt = refl
tags-below a (t ∷ ts) h lt = ground (arith, tags-below a ts h.1 lt)

-- the nodes of one queue are none of the nodes of another
pub queues-Apart :
    (p q : Ptr) (ws ts : List Ptr)
    → (p + 1 < q) ⊎ (q + 1 < p)
    → p < 99
    → q < 99
    → AreTasks ws
    → AreTasks ts
    → Apart ws ts
    → Apart (nodes p (tags ws)) (nodes q (tags ts))
queues-Apart p q ws ts away hp hq hw ht apart a i = ground (
  arith,
  has-append a (tags ws) (tail p ∷ []),
  has-append a (tags ts) (tail q ∷ []),
  tags-above a ws hw,
  tags-above a ts ht,
  has-tags_pred a ws,
  has-tags_pred a ts,
  apart (a - 1),
)

has-swap : (a e l : Ptr) (xs : List Ptr) → has a (e ∷ nodes l xs) ≡ has a (nodes l (e ∷ xs))
has-swap a e l xs = ground arith

-- The queue at `p` keeps its tasks while the queue at `q`, less or more a task, changes.
module _ {m m' : Links} {p q : Ptr} (ws ts : List Ptr) (h : IsQueue m p ws) (hq : q < 99)
    (ht : AreTasks ts) (away : (p + 1 < q) ⊎ (q + 1 < p)) (apart : Apart ws ts) where
  pub IsQueue-spared : SameOutside (nodes q (tags ts)) m m' → IsQueue m' p ws
  IsQueue-spared same =
      IsQueue-frame (nodes q (tags ts)) h same
        (queues-Apart p q ws ts away h.place hq h.tasks ht apart)

pub IsQueue-spared_insert :
    {m m' : Links} {p q : Ptr} (ws ts : List Ptr) (t : Ptr)
    → IsQueue m p ws
    → q < 99
    → AreTasks ts
    → IsTask t
    → (p + 1 < q) ⊎ (q + 1 < p)
    → Apart ws (t ∷ ts)
    → SameOutside (general_tag t ∷ nodes q (tags ts)) m m'
    → IsQueue m' p ws
IsQueue-spared_insert {q} ws ts t h hq ht task away apart same =
    IsQueue-spared ws (t ∷ ts) h hq (task, ht) away apart
      λ a out. same a (has-swap a (general_tag t) q (tags ts) ∙ out)

pub Apart-sym : (xs ys : List Ptr) → Apart xs ys → Apart ys xs
Apart-sym xs ys apart a i = elim (Bool-cases (has a xs)) [
  | inl both ↦ ground (arith, apart a)
  | inr out ↦ out
]

pub Apart-cons : (xs ys : List Ptr) (c : Ptr) → Apart xs ys → c ∉ xs → Apart xs (c ∷ ys)
Apart-cons xs ys c apart out a i = ground (arith, apart a)

pub Apart-snoc : (xs ys : List Ptr) (c : Ptr) → Apart xs ys → c ∉ xs → Apart (ys ++ (c ∷ [])) xs
Apart-snoc xs ys c apart out a i = ground (arith, has-append a ys (c ∷ []), Apart-sym xs ys apart a)
