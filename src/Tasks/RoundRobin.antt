-- ===== src/Tasks/RoundRobin.antt =====
-- The scheduler as a rotation: who runs, and who waits in which order.
use mathlib.Core.List.{append_assoc}
use mathlib.Core.Path.{subst}
use lutf.Base.{
  ℕ, zero, suc, ◌<◌, ◌≡◌, refl, List, [], ◌∷◌, ◌++◌, arith, ◌∉◌, Returns, returns, bind, mono,
  length, length-append, Cmd, Unit₀, pure, ◌>>◌, has-append, sym,
}
use lutf.Lists.{Ptr}
use lutf.Store.{Store}
use lutf.Tasks.{schedule}
use lutf.Tasks.Queue.{IsTask, IsReady, IsQueue-Distinct}
use lutf.Tasks.Preempt.{schedule_lem}

-- `c` runs and the tasks `ts` are ready, in this order.
pub record Runs (s : Store) (c : Ptr) (ts : List Ptr) : Type 0 where
  pub current : s.current_task ≡ c
  pub ready : IsReady s.links ts
  pub task : IsTask c
  pub out : c ∉ ts

-- `n` clock preemptions, one after the other
abbrev pub preemptions : ℕ → ℕ → Cmd Store Unit₀
preemptions rounds zero = pure tt
preemptions rounds (suc n) = do schedule rounds; preemptions rounds n

-- One preemption: the task in front runs, the one that ran goes to the back.
pub schedule-Runs :
    (rounds : ℕ) {s : Store} {c t : Ptr} {ts : List Ptr}
    → Runs s c (t ∷ ts)
    → length (t ∷ ts) < rounds
    → Returns (λ _ s'. Runs s' t (ts ++ (c ∷ []))) (schedule rounds s)
schedule-Runs rounds {s} {c} {t} {ts} h lt =
    mono
      (schedule_lem rounds s (t ∷ ts) (ts ++ (s.current_task ∷ [])) t h.ready (rw h.current h.task)
        (subst (λ x. x ∉ (t ∷ ts)) (sym h.current) h.out) lt refl)
      λ _ s' (w, _, _). record {
        current = w.current;
        ready = rw h.current at w.ready;
        task = h.ready.tasks.0;
        out = ground (arith, has-append t ts (c ∷ []), IsQueue-Distinct t ts h.ready, h.out);
      }

-- Every ready task is reached: if the tasks `us` stand in front of `t` in the ready queue, as many
-- calls of `schedule` as there are tasks in `us`, and one more, make `t` the running task, and the
-- others keep their cyclic order. `rounds` exceeds the length of the queue.
pub preemptions-reach :
    (rounds : ℕ) {s : Store} {c : Ptr} (us : List Ptr) (t : Ptr) (vs : List Ptr)
    → Runs s c (us ++ (t ∷ vs))
    → length (us ++ (t ∷ vs)) < rounds
    → Returns (λ _ s'. Runs s' t (vs ++ (c ∷ us))) (preemptions rounds (suc (length us)) s)
preemptions-reach rounds [] t vs h lt = bind (schedule-Runs rounds h lt) λ _ s' r. returns r
preemptions-reach rounds {c} (u ∷ us) t vs h lt = bind (schedule-Runs rounds h lt) λ _ s' r.
    rw append_assoc at (
      preemptions-reach rounds us t (vs ++ (c ∷ [])) (rw append_assoc at r) (
        omega (
          arith,
          length-append us (t ∷ vs),
          length-append us (t ∷ (vs ++ (c ∷ []))),
          length-append vs (c ∷ []),
        )))
