-- ===== src/Interrupt/Wake.antt =====
-- The end of a sleep: `collaborative_schedule_helper`, and the timer that calls it.
use lutf.Base.{
  ℕ, ◌<◌, ◌≡◌, refl, ◌≢◌, ◌==◌, false, List, [], ◌∷◌, ◌++◌, arith, Returns, returns, length, ◌∉◌,
  ◌∙◌, ap, ne→==_false,
}
use lutf.Lists.{Ptr, null}
use lutf.Lists.Chain.{nodes, SameOutside}
use lutf.Store.{Store, Task, task_ready, general_tag, task_ready_list}
use lutf.Store.Access.{modify_task, update_at, update_at_self}
use lutf.Tasks.Queue.{IsTask, tags, IsReady, IsQueue-find, IsQueue-append}
use lutf.Interrupt.{collaborative_schedule_helper}

-- a task whose sleep is over
abbrev pub rested : Task → Task
rested r = record r {
  ticks = r.priority;
  status = task_ready;
  is_collaborative_schedule = false;
  sleep_millisecond = 0;
}

-- The task `t` has joined the ready tasks `ts` and nothing else has changed.
pub record Awake (s : Store) (t : Ptr) (ts : List Ptr) (s' : Store) : Type 0 where
  pub ready : IsReady s'.links (ts ++ (t ∷ []))
  pub own : s'.task t ≡ rested (s.task t)
  pub others : (p : Ptr) → p ≢ t → s'.task p ≡ s.task p
  pub spared : SameOutside (general_tag t ∷ nodes task_ready_list (tags ts)) s.links s'.links
  pub rest : s' ≡ record s { links = s'.links; task = s'.task }

-- several writes to one task, one after the other
abbrev apply_all : List (Task → Task) → Task → Task
apply_all [] r = r
apply_all (g ∷ gs) r = apply_all gs (g r)

abbrev edit_all : List (Task → Task) → (Ptr → Task) → Ptr → Ptr → Task
edit_all [] f t = f
edit_all (g ∷ gs) f t = edit_all gs (update_at f t (g (f t))) t

edit_all_self :
    (gs : List (Task → Task)) (f : Ptr → Task) (t : Ptr) → edit_all gs f t t ≡ apply_all gs (f t)
edit_all_self [] f t = refl
edit_all_self (g ∷ gs) f t =
    edit_all_self gs (update_at f t (g (f t))) t ∙ ap (apply_all gs) (update_at_self f t (g (f t)))

edit_all_other :
    (gs : List (Task → Task)) (f : Ptr → Task) (t p : Ptr) → p ≢ t → edit_all gs f t p ≡ f p
edit_all_other [] f t p ne = refl
edit_all_other (g ∷ gs) f t p ne =
    edit_all_other gs (update_at f t (g (f t))) t p ne ∙ rw (ne→==_false p t ne) refl

-- the writes to a task that wakes
abbrev waking : List (Task → Task)
waking =
    (λ r. record r { ticks = r.priority })
    ∷ (λ r. record r { status = task_ready })
    ∷ (λ r. record r { is_collaborative_schedule = false })
    ∷ (λ r. record r { sleep_millisecond = 0 })
    ∷ []

-- `collaborative_schedule_helper` of a task that is not ready puts it behind the ready ones, with a full
-- time slice, and ends its sleep; nothing else changes. `rounds` exceeds the number of ready tasks.
pub helper-Awake :
    (rounds : ℕ) (s : Store) (t : Ptr) (ts : List Ptr)
    → IsReady s.links ts
    → IsTask t
    → t ∉ ts
    → length ts < rounds
    → Returns (λ _. Awake s t ts) (collaborative_schedule_helper rounds t s)
unfolding collaborative_schedule_helper modify_task
helper-Awake rounds s t ts r ht out lt =
    let (m, append, r', same) = IsQueue-append r t ht out in
    let some_task : (t == null) ≡ false = ground (arith, ht.0) in
    rw (rw out at (IsQueue-find r rounds t lt), append, some_task, some_task, some_task, some_task)
      (returns (record {
        ready = r';
        own = edit_all_self waking s.task t;
        others = edit_all_other waking s.task t;
        spared = same;
        rest = refl;
      }))
