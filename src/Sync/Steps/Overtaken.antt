-- ===== src/Sync/Steps/Overtaken.antt =====
-- An interleaving in which `sema_up` stops: the clock comes between the raising of the value and the
-- assertion that it is 1.
use lutf.Base.{ℕ, ◌<◌, ◌≡◌, ◌≢◌, refl, true, Bool, List, ◌∈◌, ap, sym, ◌∙◌}
use lutf.Lists.{Ptr, null}
use lutf.Store.Access.{update_at, update_at_self}
use lutf.Sync.Steps.{Phase, testing, naming, raising, raised, stopped, exec}
use lutf.Sync.Steps.System.{State, Reach, here, later, stops, running_phase, between_changes}
use lutf.Sync.Steps.Pair.{
  Two, Goes, raised-eq, other_phase, reads_0, raises, tests, reads_1, lowers, passes, unmasks,
  preempts,
}

module _ (may : Phase → Bool) (rounds : ℕ) (p : Ptr) (tasks : List Ptr) (hp : p ≢ null)
    (lt : 1 < rounds) where
  module _ (c w : Ptr) (i : c ∈ tasks) (ne : c ≢ w) where
    -- the assertion of `sema_up` fails, while the other task has the lock
    trips :
        {n : Ptr} (a : State)
        → Two p c w raised naming 0 n a
        → Goes may rounds p tasks hp lt a (λ b. (b.phase c ≡ stopped raised) × (b.phase w ≡ naming))
    trips a h =
        let at : running_phase a ≡ raised = ap a.phase h.queue.current ∙ h.first in
        (
          record { store = a.store; phase = update_at a.phase c (stopped raised) },
          stops a.store (rw h.queue.current i)
              (ap (λ z. exec rounds p z a.store) at ∙ raised-eq rounds p hp a.store h.value)
              (rw (at, h.queue.current) refl),
          (
            update_at_self a.phase c (stopped raised),
            other_phase a.phase c w (stopped raised) ne ∙ h.second,
          ),
        )

-- `sema_up` can stop at its own assertion. `c` has woken `w`, the only ready task, is about to raise
-- the value, which is 0, and SIGALRM is let through. If the clock comes after the raising and again
-- when `w` has lowered the value, `c` finds 0 and loops for ever, and `w` has the semaphore.
pub sema_up_overtaken :
    (rounds : ℕ) (p : Ptr) (tasks : List Ptr) (c w h : Ptr) (a : State)
    → p ≢ null
    → c ∈ tasks
    → w ∈ tasks
    → c ≢ w
    → 1 < rounds
    → Two p c w raising testing 0 h a
    → a.store.unmasked ≡ true
    → (b : State) × Reach between_changes rounds p tasks a b
      × (b.phase c ≡ stopped raised)
      × (b.phase w ≡ naming)
sema_up_overtaken rounds p tasks c w h a hp i j ne lt h₀ mask =
    let may = between_changes in
    let ne' : w ≢ c = λ e. ne (sym e) in
    let (a₁, s₁, (h₁, m₁)) = reads_0 may rounds p tasks hp lt c w i ne a h₀ in
    let (a₂, s₂, (h₂, m₂)) = raises may rounds p tasks hp lt c w i ne a₁ h₁ in
    let (a₃, s₃, h₃) = preempts may rounds p tasks hp lt c w i ne a₂ h₂ (m₂ ∙ m₁ ∙ mask) refl in
    let (a₄, s₄, (h₄, _)) = tests may rounds p tasks hp lt w c j ne' a₃ h₃ in
    let (a₅, s₅, (h₅, _)) = reads_1 may rounds p tasks hp lt w c j ne' a₄ h₄ in
    let (a₆, s₆, (h₆, _)) = lowers may rounds p tasks hp lt w c j ne' a₅ h₅ in
    let (a₇, s₇, (h₇, _)) = passes may rounds p tasks hp lt w c j ne' a₆ h₆ in
    let (a₈, s₈, (h₈, m₈)) = unmasks may rounds p tasks hp lt w c j ne' a₇ h₇ in
    let (a₉, s₉, h₉) = preempts may rounds p tasks hp lt w c j ne' a₈ h₈ m₈ refl in
    let (b, s, done) = trips may rounds p tasks hp lt c w i ne a₉ h₉ in
    (
      b,
      later
          (later
            (later (later (later (later (later (later (later (later here s₁) s₂) s₃) s₄) s₅) s₆) s₇)
              s₈)
            s₉)
          s,
      done.0,
      done.1,
    )
