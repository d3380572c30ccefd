-- ===== src/Life/World/Buried.antt =====
-- The pool in the life of the tasks: once a task has ended, `task_start` takes it from the pool.
use mathlib.Core.Path.{subst}
use lutf.Base.{
  ℕ, ◌<◌, ◌≡◌, ◌≢◌, refl, ◌==◌, List, [], ◌∷◌, ◌++◌, ◌∈◌, Apart, length, ok, spin, switched, arith,
  ap, sym, ◌∙◌, Bool-cases, inl, inr, ==_iff, has-append, Returns-ok, length-le_of_Distinct,
}
use lutf.Base.Int.{ℤ}
use lutf.Life.{task_start, task_exit}
use lutf.Life.Exit.{task_exit-Exited}
use lutf.Life.Parted.{IsPool, pool_tags}
use lutf.Life.Pool.{task_start_stuck}
use lutf.Life.World.{World, Sound, Event, starts, ends, clock, Life, born, lives}
use lutf.Life.World.Alive.{Life-Sound}
use lutf.Life.World.Ends.{end-CanExit}
use lutf.Life.World.Preempts.{queue-Distinct}
use lutf.Lists.{Ptr}
use lutf.Store.{Store, Task, task_died}
use lutf.Tasks.{schedule}
use lutf.Tasks.Park.{HandsOver-switched}
use lutf.Tasks.Preempt.{schedule_lem}

-- The tasks in the pool have the status TASK_DIED.
pub record Buried (w : World) : Type 0 where
  pub died : (a : Ptr) → a ∈ w.pool → (w.store.task a).status ≡ task_died

differs : {c a : Ptr} (us ps : List Ptr) → Apart us ps → c ∈ us → a ∈ ps → a ≢ c
differs {c} {a} us ps apart i j e = absurd (ground (arith, apart c i, subst (λ x. x ∈ ps) e j))

clock-Buried :
    (rounds : ℕ) (w : World) (t : Ptr) (ts : List Ptr) (s : Store)
    → Sound w
    → Buried w
    → w.ready ++ (w.store.current_task ∷ []) ≡ t ∷ ts
    → length w.all < rounds
    → schedule rounds w.store ≡ ok tt s
    → Buried (record w { store = s; ready = ts })
clock-Buried rounds w t ts s h b e few eq =
    let c = w.store.current_task in
    let short : length w.ready < rounds = omega (
      arith,
      few,
      length-le_of_Distinct w.ready w.all (queue-Distinct w.ready h.lists.ready) h.ready_known,
    ) in
    let (sw, _, _) =
      Returns-ok (
        rw eq at (schedule_lem rounds w.store w.ready ts t h.lists.ready h.place h.runs short e)) in
    let first : t ∈ (w.ready ++ (c ∷ [])) = subst (λ x. t ∈ x) (sym e) (ground arith) in
    let next_known : t ∈ w.all = elim (Bool-cases (t == c)) [
      | inl own ↦ subst (λ x. x ∈ w.all) (sym ((==_iff t c).0 own)) h.known
      | inr other ↦ h.ready_known t (ground (arith, first, has-append t w.ready (c ∷ [])))
    ] in
    record {
      died = λ a i.
          ap (λ (r : Task). r.status)
            (sw.others a (differs w.all w.pool h.unpooled h.known i)
              (differs w.all w.pool h.unpooled next_known i))
          ∙ b.died a i;
    }

end-Buried :
    (rounds : ℕ) (w : World) (u : Ptr) (ts us vs : List Ptr) (s : Store)
    → Sound w
    → Buried w
    → w.ready ≡ u ∷ ts
    → w.all ≡ us ++ (w.store.current_task ∷ vs)
    → w.store.current_task ≢ w.store.main_task
    → length w.all < rounds
    → task_exit rounds w.store.current_task w.store ≡ switched s
    → Buried (record {
      store = s;
      ready = ts;
      all = us ++ vs;
      pool = w.pool ++ (w.store.current_task ∷ []);
    })
end-Buried rounds w u ts us vs s h b ready all other few eq =
    let c = w.store.current_task in
    let is = HandsOver-switched (
      rw eq at (
        task_exit-Exited rounds w.store u ts us vs w.pool (h.num c)
          (end-CanExit rounds w h u ts us vs s ready all other few))) in
    let next_known : u ∈ w.all = h.ready_known u (subst (λ x. u ∈ x) (sym ready) (ground arith)) in
    record {
      died = λ a i. elim (Bool-cases (a == c)) [
        | inl own ↦
            subst (λ x. (s.task x).status ≡ task_died) (sym ((==_iff a c).0 own))
              (ap (λ (r : Task). r.status) is.dead)
        | inr ne ↦
            let pooled : a ∈ w.pool = ground (arith, i, has-append a w.pool (c ∷ [])) in
            ap (λ (r : Task). r.status)
              (is.others a (differs w.all w.pool h.unpooled h.known pooled)
                (differs w.all w.pool h.unpooled next_known pooled))
            ∙ b.died a pooled
      ];
    }

Event-Buried :
    {rounds entrance : ℕ} {w w' : World}
    → Sound w
    → Buried w
    → Event rounds entrance w w'
    → Buried w'
Event-Buried {w} h b
      (starts name prio function func_arg t n stack more s short unpooled supply task other new
        first small few eq e) =
    rw e (record { died = λ a i. absurd (ground (arith, subst (λ ps. a ∈ ps) unpooled i)) })
Event-Buried {rounds} {w} h b (ends u ts us vs s ready all other few eq e) =
    rw e (end-Buried rounds w u ts us vs s h b ready all other few eq)
Event-Buried {rounds} {w} h b (clock t ts s turn few eq e) =
    rw e (clock-Buried rounds w t ts s h b turn few eq)

Life-Buried :
    {rounds entrance : ℕ} {w w' : World}
    → Sound w
    → Buried w
    → Life rounds entrance w w'
    → Buried w'
Life-Buried h b born = b
Life-Buried h b (lives l e) = Event-Buried (Life-Sound h l) (Life-Buried h b l) e

-- No task leaves the pool.
stays :
    {rounds entrance : ℕ} {w w' : World} (a : Ptr)
    → Life rounds entrance w w'
    → a ∈ w.pool
    → a ∈ w'.pool
stays a born i = i
stays a
      (lives l (
        starts name prio function func_arg t n stack more s short unpooled supply task other new
          first small few eq e))
      i =
    rw e (stays a l i)
stays a (lives {v} l (ends u ts us vs s ready all other few eq e)) i =
    rw e (ground (arith, stays a l i, has-append a v.pool (v.store.current_task ∷ [])))
stays a (lives l (clock t ts s turn few eq e)) i = rw e (stays a l i)

-- Once a task has ended, no task starts, however tasks have been started, ended and been preempted before
-- and after, where tids stay below 2^15 and the clock comes only between complete calls of `task_start` and
-- `task_exit`: `task_start` takes the first task of the pool and stops at its
-- assertion that this one is not TASK_DIED.
pub start_after_end :
    {rounds entrance : ℕ} {w v w' : World}
    → Sound w
    → w.pool ≡ []
    → Life rounds entrance w v
    → (ended : Ptr) → ended ∈ v.pool
    → Life rounds entrance v w'
    → (name : List ℕ) (prio : ℤ) (function func_arg : ℕ)
    → (s : Store) × (task_start rounds entrance name prio function func_arg w'.store ≡ spin s)
start_after_end {rounds} {entrance} {w} {v} {w'} h none l ended i l' name prio function func_arg =
    let b : Buried w = record {
      died = λ a i. absurd (ground (arith, subst (λ ps. a ∈ ps) none i));
    } in
    let k = Life-Sound h l in
    let k' = Life-Sound k l' in
    stuck w'.pool refl k'.lists.pool (Life-Buried k (Life-Buried h b l) l') (stays ended l' i)
  where
    stuck :
        (ps : List Ptr)
        → w'.pool ≡ ps
        → IsPool w'.store.links w'.pool
        → Buried w'
        → ended ∈ w'.pool
        → (s : Store) × (task_start rounds entrance name prio function func_arg w'.store ≡ spin s)
    stuck [] e is b i = absurd (ground (arith, subst (λ ps. ended ∈ ps) e i))
    stuck (t ∷ ts) e is b i =
        let is' : IsPool w'.store.links (t ∷ ts) = subst (IsPool w'.store.links) e is in
        task_start_stuck rounds entrance name prio function func_arg w'.store t (pool_tags ts)
          is'.list (omega (arith, is'.tasks.0.0))
          (b.died t (subst (λ ps. t ∈ ps) (sym e) (ground arith)))
