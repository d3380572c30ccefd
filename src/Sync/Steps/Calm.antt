-- ===== src/Sync/Steps/Calm.antt =====
-- The change of the value is not interrupted: every step keeps the invariant then.
use lutf.Base.{
  ℕ, ◌≡◌, ◌≢◌, refl, ◌==◌, ==_iff, Bool-cases, inl, inr, ◌⊎◌, true, false, ok, switched, Returns,
  returns, Returns-ok, Ends, end_returned, ne→==_false, arith, List, ◌∈◌, ap, sym, ◌∙◌, Ends-ok,
  Ends-spin, Ends-switched,
}
use lutf.Lists.{Ptr, null}
use lutf.Store.{Store, Lock}
use lutf.Store.Access.{get_lock, modify_lock}
use lutf.Sync.Steps.{
  Phase, asking, asking_again, giving, stopped, lowering, raising, lowering_from, raising_from,
  exec,
}
use lutf.Sync.Steps.Locks.{schedule-Keeps}
use lutf.Sync.Steps.Moves.{inside, has_lowered, owns, stays, exec-Moves, value_read}
use lutf.Sync.Steps.Count.{lowered_by-none}
use lutf.Sync.Steps.System.{
  State, goes_to, running_phase, AreFew, Step, runs, stops, blocks, asks, asks_again, gives, clock,
  elsewhere, queues, reads, between_changes, IsStart, Reach, here, later,
}
use lutf.Sync.Steps.Invariant.{Inv, Move-Inv, Move-reads}

-- Only the running task can stand between the reading and the writing of the value, and what it read is
-- the value still.
pub record Calm (p : Ptr) (tasks : List Ptr) (a : State) : Type 0 where
  pub only : (t : Ptr) → t ∈ tasks → reads (a.phase t) ≡ true → t ≡ a.store.current_task
  pub fresh :
      (t : Ptr)
      → t ∈ tasks
      → reads (a.phase t) ≡ true
      → (a.store.lock p).value ≡ value_read (a.phase t)

module _ (rounds : ℕ) (p : Ptr) (hp : p ≢ null) (s : Store) where
  -- the reading leaves the task that runs
  load-current :
      (a : Phase)
      → (a ≡ lowering) ⊎ (a ≡ raising)
      → Returns (λ _ s'. s'.current_task ≡ s.current_task) (exec rounds p a s)
  unfolding exec get_lock
  load-current a (inl e) = rw (e, ne→==_false p null hp) (returns refl)
  load-current a (inr e) = rw (e, ne→==_false p null hp) (returns refl)

  -- the writing goes on
  write-goes :
      (a : Phase)
      → reads a ≡ true
      → Ends (λ _ _. true ≡ true) (λ _. true ≡ false) (exec rounds p a s)
  unfolding exec modify_lock
  write-goes (lowering_from v) r = rw (ne→==_false p null hp) (end_returned refl)
  write-goes (raising_from v) r = rw (ne→==_false p null hp) (end_returned refl)
  write-goes a r = absurd (ground arith)

module _ (rounds : ℕ) (p : Ptr) (tasks : List Ptr) (hp : p ≢ null) (few : AreFew tasks) where
  abbrev CalmStep : State → State → Type 0
  CalmStep = Step between_changes rounds p tasks

  pub record Holds (a : State) : Type 0 where
    pub inv : Inv tasks (a.store.lock p) a.phase
    pub calm : Calm p tasks a

  none_reads :
      {a : State}
      → Calm p tasks a
      → reads (running_phase a) ≡ false
      → (t : Ptr) → t ∈ tasks
      → reads (a.phase t) ≡ false
  none_reads {a} calm out t i = elim (Bool-cases (reads (a.phase t))) [
    | inl r ↦ absurd (ground (arith, out, ap (λ u. reads (a.phase u)) (sym (calm.only t i r)), r))
    | inr n ↦ n
  ]

  -- no task reads, and another may run
  quiet-Calm : (b : State) → ((t : Ptr) → t ∈ tasks → reads (b.phase t) ≡ false) → Calm p tasks b
  quiet-Calm b none = record {
    only = λ t j r. absurd (ground (arith, none t j, r));
    fresh = λ t j r. absurd (ground (arith, none t j, r));
  }

  -- the running task goes to `next`, and the others do not read
  turned-Calm :
      (a : State) (s : Store) (next : Phase)
      → Calm p tasks a
      → (reads next ≡ true
          → (s.current_task ≡ a.store.current_task) × ((s.lock p).value ≡ value_read next))
      → Calm p tasks (goes_to a s next)
  turned-Calm a s next calm new = record {
    only = λ t j. elim (Bool-cases (t == a.store.current_task)) [
      | inl e ↦ rw e (λ r. (==_iff t a.store.current_task).0 e ∙ sym (new r).0)
      | inr e ↦ rw e (λ r. absurd (ground (arith, calm.only t j r, e)))
    ];
    fresh = λ t j. elim (Bool-cases (t == a.store.current_task)) [
      | inl e ↦ rw e (λ r. (new r).1)
      | inr e ↦ rw e (λ r. absurd (ground (arith, calm.only t j r, e)))
    ];
  }

  -- the running task is at another phase, in neither of which it reads, and the lock is the same
  turned :
      (a : State) (s : Store) (b : Phase)
      → Holds a
      → a.store.current_task ∈ tasks
      → s.lock p ≡ a.store.lock p
      → inside b ≡ inside (running_phase a)
      → has_lowered b ≡ has_lowered (running_phase a)
      → owns b ≡ owns (running_phase a)
      → reads b ≡ false
      → Holds (goes_to a s b)
  turned a s b h i same ins low own out = record {
    inv =
        Move-Inv tasks (a.store.lock p) a.phase a.store.current_task b few h.inv i (s.lock p)
          (h.calm.fresh a.store.current_task i)
          (stays ins low own out (ap (λ r. r.value) same) (ap (λ r. r.holder) same));
    calm = turned-Calm a s b h.calm λ r. absurd (ground (arith, out, r));
  }

  -- the processor goes to another task, and no task reads
  handed :
      (a : State) (s : Store)
      → Holds a
      → s.lock p ≡ a.store.lock p
      → reads (running_phase a) ≡ false
      → Holds (record a { store = s })
  handed a s h same out = record {
    inv = rw same h.inv;
    calm = quiet-Calm (record a { store = s }) (none_reads h.calm out);
  }

  runs-Holds :
      (a : State) (s : Store) (next : Phase)
      → Holds a
      → a.store.current_task ∈ tasks
      → exec rounds p (running_phase a) a.store ≡ ok next s
      → Holds (goes_to a s next)
  runs-Holds a s next h i eq =
      let c = a.store.current_task in
      let move = Ends-ok (rw eq at (exec-Moves rounds p hp a.store (running_phase a))) in
      record {
        inv =
            Move-Inv tasks (a.store.lock p) a.phase c next few h.inv i (s.lock p) (h.calm.fresh c i)
              move;
        calm = turned-Calm a s next h.calm λ r.
            let (at, value) =
              Move-reads tasks (a.store.lock p) a.phase c next few h.inv i (s.lock p) move r in
            (Returns-ok (rw eq at (load-current rounds p hp a.store (running_phase a) at)), value);
      }

  blocked_out :
      (a : State) (s : Store)
      → exec rounds p (running_phase a) a.store ≡ switched s
      → reads (running_phase a) ≡ false
  blocked_out a s eq = elim (Bool-cases (reads (running_phase a))) [
    | inl r ↦ absurd (
        ground
          (arith, Ends-switched (rw eq at (write-goes rounds p hp a.store (running_phase a) r))))
    | inr n ↦ n
  ]

  Step-Holds : {a b : State} → CalmStep a b → Holds a → Holds b
  Step-Holds {a} (runs s next i eq e) h = rw e (runs-Holds a s next h i eq)
  Step-Holds {a} (stops s i eq e) h = rw e (
      turned a s (stopped (running_phase a)) h i
        (ap (λ (f : Ptr → Lock). f p)
          (Ends-spin (rw eq at (exec-Moves rounds p hp a.store (running_phase a)))))
        refl refl refl refl)
  Step-Holds {a} (blocks s eq e) h =
      let same = Ends-switched (rw eq at (exec-Moves rounds p hp a.store (running_phase a))) in
      rw e (handed a s h (ap (λ (f : Ptr → Lock). f p) same) (blocked_out a s eq))
  Step-Holds {a} (asks i at e) h = rw e (
      turned a a.store asking h i refl (ap inside (sym at)) (ap has_lowered (sym at))
        (ap owns (sym at)) refl)
  Step-Holds {a} (asks_again i at e) h = rw e (
      turned a a.store asking_again h i refl (ap inside (sym at)) (ap has_lowered (sym at))
        (ap owns (sym at)) refl)
  Step-Holds {a} (gives i at e) h = rw e (
      turned a a.store giving h i refl (ap inside (sym at)) (ap has_lowered (sym at))
        (ap owns (sym at)) refl)
  Step-Holds {a} (clock s unmasked may eq e) h =
      let same = Ends-ok (rw eq at (schedule-Keeps a.store.lock rounds a.store refl)) in
      rw e (handed a s h (ap (λ (f : Ptr → Lock). f p) same) (ground (arith, may)))
  Step-Holds {a} (queues s at same e) h = rw e (handed a s h same (ap reads at))
  Step-Holds {a} (elsewhere s (inl at) same e) h = rw e (handed a s h same (ap reads at))
  Step-Holds {a} (elsewhere s (inr at) same e) h = rw e (handed a s h same (ap reads at))

  start-Holds : {a : State} → IsStart p a → Holds a
  start-Holds {a} start =
      let none = lowered_by-none tasks a.phase (λ t. ap has_lowered (start.all_outside t)) in
      record {
        inv = rw start.free (record {
          byte = omega arith;
          balance = omega (arith, none);
          alone = λ t u i j ht hu. absurd (ground (arith, ap inside (start.all_outside t)));
          owner = λ t i h. absurd (ground (arith, ap owns (start.all_outside t)));
          owned = λ t i h. absurd (ground (arith, few.no_null));
        });
        calm = quiet-Calm a λ t i. ap reads (start.all_outside t);
      }

  pub Reach-Holds : {a b : State} → IsStart p a → Reach between_changes rounds p tasks a b → Holds b
  Reach-Holds start here = start-Holds start
  Reach-Holds start (later r step) = Step-Holds step (Reach-Holds start r)
