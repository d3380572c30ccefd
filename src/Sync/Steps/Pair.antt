-- ===== src/Sync/Steps/Pair.antt =====
-- Two tasks, one that runs and one that is ready, and the statements that they do in turn.
use lutf.Base.{
  ℕ, ◌<◌, ◌≡◌, ◌≢◌, refl, ne→==_false, true, Bool, if◌then◌else◌, arith, [], ◌∷◌, List, ◌∈◌, ap,
  sym, ◌∙◌, ok, spin, Returns-eq, Ends-ok,
}
use lutf.Lists.{Ptr, null}
use lutf.Store.{Store, Lock}
use lutf.Store.Access.{get_lock, modify_lock, put_lock, update_at, update_at_self, interrupt_enable}
use lutf.Tasks.{schedule}
use lutf.Tasks.RoundRobin.{Runs, schedule-Runs}
use lutf.Sync.Steps.{
  Phase, testing, lowering, lowered, unmasking, naming, raising, raised, lowering_from,
  raising_from, exec,
}
use lutf.Sync.Steps.Locks.{schedule-Keeps}
use lutf.Sync.Steps.System.{State, Step, runs, clock, running_phase}

module _ (rounds : ℕ) (p : Ptr) (hp : p ≢ null) (s : Store) where
  pub raising-eq : (s.lock p).value ≡ 0 → exec rounds p raising s ≡ ok (raising_from 0) s
  unfolding exec get_lock
  raising-eq v = simp (ne→==_false p null hp, v) refl

  pub raise-eq :
      exec rounds p (raising_from 0) s ≡ ok raised (put_lock s p (record (s.lock p) { value = 1 }))
  unfolding exec modify_lock
  raise-eq = simp (ne→==_false p null hp) refl

  pub testing-eq : (s.lock p).value ≡ 1 → exec rounds p testing s ≡ ok lowering s
  unfolding exec get_lock
  testing-eq v = simp (ne→==_false p null hp, v) refl

  pub lowering-eq : (s.lock p).value ≡ 1 → exec rounds p lowering s ≡ ok (lowering_from 1) s
  unfolding exec get_lock
  lowering-eq v = simp (ne→==_false p null hp, v) refl

  pub lower-eq :
      exec rounds p (lowering_from 1) s
      ≡ ok lowered (put_lock s p (record (s.lock p) { value = 0 }))
  unfolding exec modify_lock
  lower-eq = simp (ne→==_false p null hp) refl

  pub lowered-eq : (s.lock p).value ≡ 0 → exec rounds p lowered s ≡ ok unmasking s
  unfolding exec get_lock
  lowered-eq v = simp (ne→==_false p null hp, v) refl

  pub unmasking-eq : exec rounds p unmasking s ≡ ok naming (record s { unmasked = true })
  unfolding exec interrupt_enable
  unmasking-eq = refl

  pub raised-eq : (s.lock p).value ≡ 0 → exec rounds p raised s ≡ spin s
  unfolding exec get_lock
  raised-eq v = simp (ne→==_false p null hp, v) refl

-- The clock gives the processor to the only ready task; the locks stay.
preempted :
    (rounds : ℕ) (s : Store) (c w : Ptr)
    → Runs s c (w ∷ [])
    → 1 < rounds
    → (s' : Store) × (schedule rounds s ≡ ok tt s') × Runs s' w (c ∷ []) × (s'.lock ≡ s.lock)
preempted rounds s c w h lt =
    let (_, s', eq, r) = Returns-eq (schedule-Runs rounds h lt) in
    (s', eq, r, Ends-ok (rw eq at (schedule-Keeps s.lock rounds s refl)))

pub other_phase :
    (phase : Ptr → Phase) (c w : Ptr) (y : Phase) → c ≢ w → update_at phase c y w ≡ phase w
other_phase phase c w y ne = ap (λ b. if b then y else phase w) (ne→==_false w c (λ e. ne (sym e)))

-- `c` runs and stands at `x`, `w` is ready and stands at `y`, the value is `v`, and
-- the lock names `h` as its holder.
pub record Two (p c w : Ptr) (x y : Phase) (v : ℕ) (h : Ptr) (a : State) : Type 0 where
  pub queue : Runs a.store c (w ∷ [])
  pub first : a.phase c ≡ x
  pub second : a.phase w ≡ y
  pub value : (a.store.lock p).value ≡ v
  pub holder : (a.store.lock p).holder ≡ h

module _ (may : Phase → Bool) (rounds : ℕ) (p : Ptr) (tasks : List Ptr) (hp : p ≢ null)
    (lt : 1 < rounds) where
  abbrev pub Goes : State → (State → Type 0) → Type 0
  Goes a P = (b : State) × Step may rounds p tasks a b × P b

  module _ (c w : Ptr) (i : c ∈ tasks) (ne : c ≢ w) where
    -- the running task does one statement, which changes the lock and the mask at most
    pub does :
        {x y z : Phase} {v v' : ℕ} {n n' : Ptr} (a : State) (l : Ptr → Lock) (mask : Bool)
        → Two p c w x z v n a
        → exec rounds p x a.store ≡ ok y (record a.store { lock = l; unmasked = mask })
        → (l p).value ≡ v'
        → (l p).holder ≡ n'
        → Goes a (λ b. Two p c w y z v' n' b × (b.store.unmasked ≡ mask))
    does {x} {y} a l mask h eq value holder =
        let s : Store = record a.store { lock = l; unmasked = mask } in
        let at : running_phase a ≡ x = ap a.phase h.queue.current ∙ h.first in
        (
          record { store = s; phase = update_at a.phase c y },
          runs s y (rw h.queue.current i) (ap (λ z. exec rounds p z a.store) at ∙ eq)
              (rw h.queue.current refl),
          (
            record {
              queue = record {
                current = h.queue.current;
                ready = h.queue.ready;
                task = h.queue.task;
                out = h.queue.out;
              };
              first = update_at_self a.phase c y;
              second = other_phase a.phase c w y ne ∙ h.second;
              value = value;
              holder = holder;
            },
            refl,
          ),
        )

    -- the clock gives the processor to the other task
    pub preempts :
        {x z : Phase} {v : ℕ} {n : Ptr} (a : State)
        → Two p c w x z v n a
        → a.store.unmasked ≡ true
        → may x ≡ true
        → Goes a (Two p w c z x v n)
    preempts {x} a h mask may_come =
        let (s, eq, r, same) = preempted rounds a.store c w h.queue lt in
        (
          record a { store = s },
          clock s mask (ap (λ t. may (a.phase t)) h.queue.current ∙ ap may h.first ∙ may_come) eq
              refl,
          record {
            queue = r;
            first = h.second;
            second = h.first;
            value = ap (λ (f : Ptr → Lock). (f p).value) same ∙ h.value;
            holder = ap (λ (f : Ptr → Lock). (f p).holder) same ∙ h.holder;
          },
        )

  module _ (c w : Ptr) (i : c ∈ tasks) (ne : c ≢ w) where
    pub reads_0 :
        {z : Phase} {n : Ptr} (a : State)
        → Two p c w raising z 0 n a
        → Goes a (λ b. Two p c w (raising_from 0) z 0 n b × (b.store.unmasked ≡ a.store.unmasked))
    reads_0 a h =
        does c w i ne a a.store.lock a.store.unmasked h (raising-eq rounds p hp a.store h.value)
          h.value h.holder

    pub raises :
        {z : Phase} {n : Ptr} (a : State)
        → Two p c w (raising_from 0) z 0 n a
        → Goes a (λ b. Two p c w raised z 1 n b × (b.store.unmasked ≡ a.store.unmasked))
    raises a h =
        does c w i ne a (update_at a.store.lock p (record (a.store.lock p) { value = 1 }))
          a.store.unmasked h (raise-eq rounds p hp a.store) (ground arith)
          (ground (arith, h.holder))

    pub tests :
        {z : Phase} {n : Ptr} (a : State)
        → Two p c w testing z 1 n a
        → Goes a (λ b. Two p c w lowering z 1 n b × (b.store.unmasked ≡ a.store.unmasked))
    tests a h =
        does c w i ne a a.store.lock a.store.unmasked h (testing-eq rounds p hp a.store h.value)
          h.value h.holder

    pub reads_1 :
        {z : Phase} {n : Ptr} (a : State)
        → Two p c w lowering z 1 n a
        → Goes a (λ b. Two p c w (lowering_from 1) z 1 n b × (b.store.unmasked ≡ a.store.unmasked))
    reads_1 a h =
        does c w i ne a a.store.lock a.store.unmasked h (lowering-eq rounds p hp a.store h.value)
          h.value h.holder

    -- the value becomes 0, whatever it is now
    pub lowers :
        {z : Phase} {v : ℕ} {n : Ptr} (a : State)
        → Two p c w (lowering_from 1) z v n a
        → Goes a (λ b. Two p c w lowered z 0 n b × (b.store.unmasked ≡ a.store.unmasked))
    lowers a h =
        does c w i ne a (update_at a.store.lock p (record (a.store.lock p) { value = 0 }))
          a.store.unmasked h (lower-eq rounds p hp a.store) (ground arith)
          (ground (arith, h.holder))

    pub passes :
        {z : Phase} {n : Ptr} (a : State)
        → Two p c w lowered z 0 n a
        → Goes a (λ b. Two p c w unmasking z 0 n b × (b.store.unmasked ≡ a.store.unmasked))
    passes a h =
        does c w i ne a a.store.lock a.store.unmasked h (lowered-eq rounds p hp a.store h.value)
          h.value h.holder

    pub unmasks :
        {z : Phase} {n : Ptr} (a : State)
        → Two p c w unmasking z 0 n a
        → Goes a (λ b. Two p c w naming z 0 n b × (b.store.unmasked ≡ true))
    unmasks a h =
        does c w i ne a a.store.lock true h (unmasking-eq rounds p hp a.store) h.value h.holder
