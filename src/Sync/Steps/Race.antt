-- ===== src/Sync/Steps/Race.antt =====
-- An interleaving in which two tasks get the same lock: the clock comes inside `value--`.
use lutf.Base.{ℕ, ◌<◌, ◌≡◌, ◌≢◌, refl, ne→==_false, ◌==◌, false, true, List, ◌∈◌, ap, sym, ◌∙◌, ok}
use lutf.Lists.{Ptr, null}
use lutf.Store.{Store}
use lutf.Store.Access.{interrupt_disable, get_lock, update_at, update_at_self}
use lutf.Sync.Steps.{Phase, outside, asking, masking, testing, naming, lowering_from, exec}
use lutf.Sync.Steps.System.{State, Reach, here, later, anywhere, asks}
use lutf.Sync.Steps.Moves.{inside}
use lutf.Sync.Steps.Pair.{
  Two, Goes, does, other_phase, tests, reads_1, lowers, passes, unmasks, preempts,
}

module _ (rounds : ℕ) (p : Ptr) (hp : p ≢ null) (s : Store) where
  ask-eq : (s.lock p).holder ≢ s.current_task → exec rounds p asking s ≡ ok masking s
  unfolding exec get_lock
  ask-eq other =
      let no_holder : ((s.lock p).holder == s.current_task) ≡ false =
        ne→==_false (s.lock p).holder s.current_task other in
      simp (ne→==_false p null hp, no_holder) refl

  masking-eq : exec rounds p masking s ≡ ok testing (record s { unmasked = false })
  unfolding exec interrupt_disable
  masking-eq = refl

module _ (rounds : ℕ) (p : Ptr) (tasks : List Ptr) (hp : p ≢ null) (lt : 1 < rounds) (c w : Ptr)
    (i : c ∈ tasks) (ne : c ≢ w) where
  abbrev Comes : State → (State → Type 0) → Type 0
  Comes = Goes anywhere rounds p tasks hp lt

  calls :
      {z : Phase} {v : ℕ} {h : Ptr} (a : State)
      → Two p c w outside z v h a
      → Comes a (λ b. Two p c w asking z v h b)
  calls a h = (
    record { store = a.store; phase = update_at a.phase c asking },
    asks (rw h.queue.current i) (ap a.phase h.queue.current ∙ h.first) (rw h.queue.current refl),
    record {
      queue = h.queue;
      first = update_at_self a.phase c asking;
      second = other_phase a.phase c w asking ne ∙ h.second;
      value = h.value;
      holder = h.holder;
    },
  )

  asks_other :
      {z : Phase} {v : ℕ} {h : Ptr} (a : State)
      → h ≢ c
      → Two p c w asking z v h a
      → Comes a (λ b. Two p c w masking z v h b × (b.store.unmasked ≡ a.store.unmasked))
  asks_other a other h =
      does anywhere rounds p tasks hp lt c w i ne a a.store.lock a.store.unmasked h
        (ask-eq rounds p hp a.store λ e. other (sym h.holder ∙ e ∙ h.queue.current)) h.value
        h.holder

  masks :
      {z : Phase} {v : ℕ} {h : Ptr} (a : State)
      → Two p c w masking z v h a
      → Comes a (λ b. Two p c w testing z v h b × (b.store.unmasked ≡ false))
  masks a h =
      does anywhere rounds p tasks hp lt c w i ne a a.store.lock false h
        (masking-eq rounds p hp a.store) h.value h.holder

  -- `c` passes `lock_acquire` while `w` has read the value 1
  passes_by :
      {a₀ : State} {h : Ptr} (a : State)
      → h ≢ c
      → Reach anywhere rounds p tasks a₀ a
      → Two p c w outside (lowering_from 1) 1 h a
      → (b : State) × Reach anywhere rounds p tasks a₀ b
        × Two p c w naming (lowering_from 1) 0 h b
        × (b.store.unmasked ≡ true)
  passes_by a other r h₀ =
      let may = anywhere in
      let (a₁, s₁, h₁) = calls a h₀ in
      let (a₂, s₂, (h₂, _)) = asks_other a₁ other h₁ in
      let (a₃, s₃, (h₃, _)) = masks a₂ h₂ in
      let (a₄, s₄, (h₄, _)) = tests may rounds p tasks hp lt c w i ne a₃ h₃ in
      let (a₅, s₅, (h₅, _)) = reads_1 may rounds p tasks hp lt c w i ne a₄ h₄ in
      let (a₆, s₆, (h₆, _)) = lowers may rounds p tasks hp lt c w i ne a₅ h₅ in
      let (a₇, s₇, (h₇, _)) = passes may rounds p tasks hp lt c w i ne a₆ h₆ in
      let (b, s, (k, m)) = unmasks may rounds p tasks hp lt c w i ne a₇ h₇ in
      (
        b,
        later (later (later (later (later (later (later (later r s₁) s₂) s₃) s₄) s₅) s₆) s₇) s,
        k,
        m,
      )

-- Two tasks can get the same lock. `c` has given the lock back, so that its value is 1 and it does not name `c`
-- as its holder, and has woken `w`, which runs, is about to test the value, and lets SIGALRM through. If the
-- clock comes when `w` has read the value in `value--` and has not written it, `c` can call `lock_acquire` and
-- pass; when the clock comes again, `w` writes 0 and passes too: both are inside.
pub lock_given_twice :
    (rounds : ℕ) (p : Ptr) (tasks : List Ptr) (c w h : Ptr) (a : State)
    → p ≢ null
    → c ∈ tasks
    → w ∈ tasks
    → c ≢ w
    → h ≢ c
    → 1 < rounds
    → Two p w c testing outside 1 h a
    → a.store.unmasked ≡ true
    → (b : State) × Reach anywhere rounds p tasks a b
      × (inside (b.phase c) ≡ true)
      × (inside (b.phase w) ≡ true)
lock_given_twice rounds p tasks c w h a hp i j ne other lt h₀ mask =
    let may = anywhere in
    let ne' : w ≢ c = λ e. ne (sym e) in
    let (a₁, s₁, (h₁, m₁)) = tests may rounds p tasks hp lt w c j ne' a h₀ in
    let (a₂, s₂, (h₂, m₂)) = reads_1 may rounds p tasks hp lt w c j ne' a₁ h₁ in
    let (a₃, s₃, h₃) = preempts may rounds p tasks hp lt w c j ne' a₂ h₂ (m₂ ∙ m₁ ∙ mask) refl in
    let (b₁, r, k₁, m) =
      passes_by rounds p tasks hp lt c w i ne a₃ other (later (later (later here s₁) s₂) s₃) h₃ in
    let (b₂, t₂, k₂) = preempts may rounds p tasks hp lt c w i ne b₁ k₁ m refl in
    let (b₃, t₃, (k₃, _)) = lowers may rounds p tasks hp lt w c j ne' b₂ k₂ in
    let (b₄, t₄, (k₄, _)) = passes may rounds p tasks hp lt w c j ne' b₃ k₃ in
    (b₄, later (later (later r t₂) t₃) t₄, ap inside k₄.second, ap inside k₄.first)
