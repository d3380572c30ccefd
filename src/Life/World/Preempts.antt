-- ===== src/Life/World/Preempts.antt =====
-- The clock: the running task goes behind the ready ones, and the first of these runs.
use mathlib.Core.Path.{subst}
use lutf.Base.{
  ℕ, ◌+◌, ◌<◌, ◌≡◌, refl, ◌==◌, ==_iff, Bool-cases, inl, inr, List, [], ◌∷◌, ◌++◌, ◌∈◌, ◌∉◌, length,
  ok, arith, ap, sym, ◌∙◌, has, has-append, Returns-ok, length-le_of_Distinct, Distinct,
  Distinct-left, Distinct-snoc,
}
use lutf.Base.Int.{pos}
use lutf.Life.Parted.{ready-Lists}
use lutf.Life.World.{World, Sound, Numbered}
use lutf.Lists.{Ptr, Links, tail}
use lutf.Store.{Store, Task, Lock, tid_lock}
use lutf.Tasks.{schedule}
use lutf.Tasks.Queue.{IsTask, AreTasks, AreTasks-append, IsQueue, tags, has-tags}
use lutf.Tasks.Switch.{Switched}
use lutf.Tasks.Preempt.{schedule_lem, preempted}

tags-Distinct : (ts : List Ptr) → Distinct (tags ts) → Distinct ts
tags-Distinct [] d = d
tags-Distinct (t ∷ ts) d = (sym (has-tags t ts) ∙ d.0, tags-Distinct ts d.1)

-- the tasks of a queue are different
pub queue-Distinct : {m : Links} {p : Ptr} (ts : List Ptr) → IsQueue m p ts → Distinct ts
queue-Distinct {p} ts h = tags-Distinct ts (Distinct-left (tags ts) (tail p ∷ []) h.list.distinct.1)

-- a task that is numbered stays so when its tid and the bits stay
pub Numbered-same :
    {s s' : Store} {us : List Ptr} {num : Ptr → ℕ}
    → Numbered s us num
    → ((t : Ptr) → (s'.task t).tid ≡ (s.task t).tid)
    → s'.tid_start ≡ s.tid_start
    → s'.tid_bitmap ≡ s.tid_bitmap
    → Numbered s' us num
Numbered-same {num} h tids start bitmap = record {
  each = λ t i.
      let k = h.each t i in
      record {
        tid = tids t ∙ k.tid ∙ ap (λ b. pos (num t + b)) (sym start);
        small = rw start k.small;
        inside = rw bitmap k.inside;
        used = rw bitmap k.used;
      };
  unique = h.unique;
}

-- a switch leaves the tids
tids_kept :
    {s s' : Store} {t : Ptr} {ts : List Ptr}
    → Switched s s.current_task t (preempted s) ts s'
    → (p : Ptr) → (s'.task p).tid ≡ (s.task p).tid
tids_kept {s} {s'} {t} w p = elim (Bool-cases (p == t)) [
  | inl at ↦ subst (λ x. (s'.task x).tid ≡ (s.task x).tid) (sym ((==_iff p t).0 at)) running
  | inr other ↦ elim (Bool-cases (p == s.current_task)) [
    | inl own ↦
        subst (λ x. (s'.task x).tid ≡ (s.task x).tid) (sym ((==_iff p s.current_task).0 own))
          (ap (λ (r : Task). r.tid) (w.parked (ground arith)))
    | inr out ↦ ap (λ (r : Task). r.tid) (w.others p (ground arith) (ground arith))
  ]
]
  where
    running : (s'.task t).tid ≡ (s.task t).tid
    running = ap (λ (r : Task). r.tid) w.running ∙ elim (Bool-cases (t == s.current_task)) [
      | inl own ↦ rw own (ap (λ x. (s.task x).tid) (sym ((==_iff t s.current_task).0 own)))
      | inr other ↦ rw other refl
    ]

-- in the queue with the running task behind the others
in_turn :
    (a c : Ptr) (ts us : List Ptr) (t : Ptr)
    → ts ++ (c ∷ []) ≡ t ∷ us
    → has a (t ∷ us) ≡ has a (ts ++ (c ∷ []))
in_turn a c ts us t e = ap (has a) (sym e)

pub has_head : (t : Ptr) (ts : List Ptr) → t ∈ (t ∷ ts)
has_head t ts = ground arith

pub has_more : (a t : Ptr) (ts : List Ptr) → a ∈ ts → a ∈ (t ∷ ts)
has_more a t ts i = ground arith

pub clock-Sound :
    (rounds : ℕ) (w : World) (t : Ptr) (ts : List Ptr) (s : Store)
    → Sound w
    → w.ready ++ (w.store.current_task ∷ []) ≡ t ∷ ts
    → length w.all < rounds
    → schedule rounds w.store ≡ ok tt s
    → Sound (record w { store = s; ready = ts })
clock-Sound rounds w t ts s h e few eq =
    let c = w.store.current_task in
    let short : length w.ready < rounds = omega (
      arith,
      few,
      length-le_of_Distinct w.ready w.all (queue-Distinct w.ready h.lists.ready) h.ready_known,
    ) in
    let (sw, spared, _) =
      Returns-ok (
        rw eq at (schedule_lem rounds w.store w.ready ts t h.lists.ready h.place h.runs short e)) in
    let all_tasks : AreTasks (t ∷ ts) =
      subst AreTasks e (AreTasks-append w.ready (c ∷ []) h.lists.ready.tasks (h.place, tt)) in
    let member = λ (a : Ptr). in_turn a c w.ready ts t e ∙ has-append a w.ready (c ∷ []) in
    let inside : (a : Ptr) → a ∈ (t ∷ ts) → a ∈ w.all = λ a i. elim (Bool-cases (a == c)) [
      | inl own ↦ subst (λ x. x ∈ w.all) (sym ((==_iff a c).0 own)) h.known
      | inr other ↦ h.ready_known a (let m = member a in ground arith)
    ] in
    record {
      lists = ready-Lists (t ∷ ts) h.lists all_tasks spared sw.ready;
      distinct = h.distinct;
      place = subst IsTask (sym sw.current) all_tasks.0;
      runs =
          subst (λ x. x ∉ ts) (sym sw.current)
            (subst Distinct e
              (Distinct-snoc w.ready c (queue-Distinct w.ready h.lists.ready) h.runs)).0;
      known = subst (λ x. x ∈ w.all) (sym sw.current) (inside t (has_head t ts));
      ready_known = λ a i. inside a (has_more a t ts i);
      unpooled = h.unpooled;
      free = ap (λ (l : Ptr → Lock). l tid_lock) sw.globals.lock ∙ h.free;
      bitmap = rw sw.globals.tid_bitmap h.bitmap;
      count = sw.globals.task_all_nums ∙ h.count;
      num = h.num;
      numbered = Numbered-same h.numbered (tids_kept sw) sw.globals.tid_start sw.globals.tid_bitmap;
    }
