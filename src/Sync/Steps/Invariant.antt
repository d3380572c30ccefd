-- ===== src/Sync/Steps/Invariant.antt =====
-- The invariant of the tasks that share a lock, which every step keeps.
use lutf.Base.{
  ℕ, ◌+◌, ◌%◌, ◌≤◌, ◌<◌, ◌≡◌, refl, ◌==◌, ==_iff, Bool, Bool-cases, inl, inr, ◌⊎◌, true, false,
  arith, List, ◌∈◌, ap, sym, ◌∙◌, if◌then◌else◌,
}
use lutf.Lists.{Ptr, null}
use lutf.Store.{Lock}
use lutf.Store.Access.{update_at}
use lutf.Sync.Steps.{
  Phase, lowered, unmasking, naming, counting, clearing, zeroing, stopped, lowering, raising,
}
use lutf.Sync.Steps.Moves.{
  inside, has_lowered, owns, Move, stays, lowers, passes, names, clears, raises, takes_twice,
  has_lost, loads, value_read,
}
use lutf.Sync.Steps.Count.{lowered_by, weight, lowered_by_le, lowered_by-update, lowered_by-one}
use lutf.Sync.Steps.System.{AreFew, reads}

-- The value and the number of tasks that have lowered it balance, modulo the size of a byte; one
-- task is inside at most, and the tasks that own the lock are those that it names as its holder.
pub record Inv (tasks : List Ptr) (l : Lock) (phase : Ptr → Phase) : Type 0 where
  pub byte : l.value < 256
  pub balance : (l.value + lowered_by tasks phase) % 256 ≡ 1
  pub alone :
      (t u : Ptr)
      → t ∈ tasks
      → u ∈ tasks
      → inside (phase t) ≡ true
      → inside (phase u) ≡ true
      → t ≡ u
  pub owner : (t : Ptr) → t ∈ tasks → owns (phase t) ≡ true → l.holder ≡ t
  pub owned : (t : Ptr) → t ∈ tasks → l.holder ≡ t → owns (phase t) ≡ true

inside-has_lowered : (a : Phase) → inside a ≡ true → has_lowered a ≡ true
inside-has_lowered (stopped a) h = inside-has_lowered a h
inside-has_lowered lowered h = refl
inside-has_lowered a h = ground arith

owns-inside : (a : Phase) → owns a ≡ true → inside a ≡ true
owns-inside (stopped a) h = owns-inside a h
owns-inside a h = ground arith

module _ (phase : Ptr → Phase) (c : Ptr) (b : Phase) (f : Phase → Bool) where
  update_at-same : f b ≡ f (phase c) → (t : Ptr) → f (update_at phase c b t) ≡ f (phase t)
  update_at-same e t = elim (Bool-cases (t == c)) [
    | inl at ↦ rw at (e ∙ ap (λ x. f (phase x)) (sym ((==_iff t c).0 at)))
    | inr other ↦ rw other refl
  ]

  update_at-only :
      (f b ≡ true → f (phase c) ≡ true)
      → (t : Ptr) → f (update_at phase c b t) ≡ true
      → f (phase t) ≡ true
  update_at-only e t = elim (Bool-cases (t == c)) [
    | inl at ↦ rw at (λ h. ap (λ x. f (phase x)) ((==_iff t c).0 at) ∙ e h)
    | inr other ↦ rw other (λ h. h)
  ]

module _ (tasks : List Ptr) (l : Lock) (phase : Ptr → Phase) (c : Ptr) (b : Phase)
    (few : AreFew tasks) (inv : Inv tasks l phase) (is_task : c ∈ tasks) where
  abbrev moved : Ptr → Phase
  moved = update_at phase c b

  counted :
      lowered_by tasks (update_at phase c b) + weight (phase c) ≡ lowered_by tasks phase + weight b
  counted = lowered_by-update tasks phase c b few.distinct is_task

  alone_still :
      (inside b ≡ true → inside (phase c) ≡ true)
      → (t u : Ptr) → t ∈ tasks
      → u ∈ tasks
      → inside (moved t) ≡ true
      → inside (moved u) ≡ true
      → t ≡ u
  alone_still fewer t u i j ht hu =
      inv.alone t u i j (update_at-only phase c b inside fewer t ht)
        (update_at-only phase c b inside fewer u hu)

  -- a move that leaves the holder
  quiet-Inv :
      (l' : Lock)
      → (inside b ≡ true → inside (phase c) ≡ true)
      → owns b ≡ owns (phase c)
      → l'.holder ≡ l.holder
      → l'.value < 256
      → (l'.value + lowered_by tasks moved) % 256 ≡ 1
      → Inv tasks l' moved
  quiet-Inv l' fewer same holder byte balance = record {
    byte = byte;
    balance = balance;
    alone = alone_still fewer;
    owner = λ t i h. holder ∙ inv.owner t i (sym (update_at-same phase c b owns same t) ∙ h);
    owned = λ t i h. update_at-same phase c b owns same t ∙ inv.owned t i (sym holder ∙ h);
  }

  -- the first task that finds the value 0 after it has lowered it is the only one that has
  passed-Inv : phase c ≡ lowered → b ≡ unmasking → l.value ≡ 0 → Inv tasks l moved
  passed-Inv at to zero =
      let same = counted in
      let one : lowered_by tasks moved ≤ 1 = omega (
        arith,
        same,
        ap weight at,
        ap weight to,
        zero,
        inv.balance,
        lowered_by_le tasks phase,
        few.few,
      ) in
      record {
        byte = inv.byte;
        balance = omega (arith, same, ap weight at, ap weight to, inv.balance);
        alone = λ t u i j ht hu.
            lowered_by-one tasks moved t u i j (inside-has_lowered (moved t) ht)
              (inside-has_lowered (moved u) hu) one;
        owner = λ t i h.
            inv.owner t i
              (sym (update_at-same phase c b owns (ap owns to ∙ sym (ap owns at)) t) ∙ h);
        owned = λ t i h.
            update_at-same phase c b owns (ap owns to ∙ sym (ap owns at)) t ∙ inv.owned t i h;
      }

  -- no other task owns the lock while one is inside
  others_out :
      inside (phase c) ≡ true → (t : Ptr) → t ∈ tasks → (t == c) ≡ false → owns (phase t) ≡ false
  others_out h t i ne = elim (Bool-cases (owns (phase t))) [
    | inl e ↦ absurd (ground (arith, inv.alone t c i is_task (owns-inside (phase t) e) h))
    | inr e ↦ e
  ]

  only_self :
      inside (phase c) ≡ true
      → (t : Ptr) → t ∈ tasks
      → owns (moved t) ≡ true
      → (t ≡ c) × (owns b ≡ true)
  only_self h t i o = elim (Bool-cases (t == c)) [
    | inl e ↦ ((==_iff t c).0 e, rw e at o)
    | inr e ↦
        let o' : owns (phase t) ≡ true = rw e at o in
        absurd (ground (arith, others_out h t i e, o'))
  ]

  named-Inv :
      (l' : Lock)
      → phase c ≡ naming
      → b ≡ counting
      → l'.value ≡ l.value
      → l'.holder ≡ c
      → Inv tasks l' moved
  named-Inv l' at to value holder = record {
    byte = rw value inv.byte;
    balance = rw value (omega (arith, counted, ap weight at, ap weight to, inv.balance));
    alone = alone_still (λ _. ap inside at);
    owner = λ t i h. holder ∙ sym (only_self (ap inside at) t i h).0;
    owned = λ t i h. let here : (t == c) ≡ true = ground arith in rw here (ap owns to);
  }

  cleared-Inv :
      (l' : Lock)
      → phase c ≡ clearing
      → b ≡ zeroing
      → l'.value ≡ l.value
      → l'.holder ≡ null
      → Inv tasks l' moved
  cleared-Inv l' at to value holder = record {
    byte = rw value inv.byte;
    balance = rw value (omega (arith, counted, ap weight at, ap weight to, inv.balance));
    alone = alone_still (λ _. ap inside at);
    owner = λ t i h. absurd (ground (arith, (only_self (ap inside at) t i h).1, ap owns to));
    owned = λ t i h. absurd (ground (arith, few.no_null));
  }

  pub Move-Inv :
      (l' : Lock)
      → (reads (phase c) ≡ true → l.value ≡ value_read (phase c))
      → Move c l (phase c) b l'
      → Inv tasks l' moved
  Move-Inv l' fresh (stays ins low own out value holder) =
      quiet-Inv l' (λ h. sym ins ∙ h) own holder (rw value inv.byte)
        (rw value (omega (arith, counted, ap {B = ℕ} (λ x. if x then 1 else 0) low, inv.balance)))
  Move-Inv l' fresh (loads at ins low own read same) = rw same (
      quiet-Inv l (λ h. sym ins ∙ h) own refl inv.byte
        (omega (arith, counted, ap {B = ℕ} (λ x. if x then 1 else 0) low, inv.balance)))
  Move-Inv l' fresh (lowers v at to value holder) =
      let now : l.value ≡ v = fresh (ap reads at) ∙ ap value_read at in
      quiet-Inv l' (λ h. absurd (ground (arith, ap inside to))) (ap owns to ∙ sym (ap owns at))
        holder (omega (arith, value))
        (omega (arith, value, now, inv.byte, counted, ap weight at, ap weight to, inv.balance))
  Move-Inv l' fresh (passes at to zero same) = rw same (passed-Inv at to zero)
  Move-Inv l' fresh (names at to value holder) = named-Inv l' at to value holder
  Move-Inv l' fresh (clears at to value holder) = cleared-Inv l' at to value holder
  Move-Inv l' fresh (raises v at to value holder) =
      let now : l.value ≡ v = fresh (ap reads at) ∙ ap value_read at in
      quiet-Inv l' (λ h. absurd (ground (arith, ap inside to))) (ap owns to ∙ sym (ap owns at))
        holder (omega (arith, value))
        (omega (arith, value, now, inv.byte, counted, ap weight at, ap weight to, inv.balance))
  Move-Inv l' fresh (takes_twice at holder out) =
      absurd (ground (arith, inv.owned c is_task holder, ap owns at))
  Move-Inv l' fresh (has_lost at holder out) = absurd (holder (inv.owner c is_task (ap owns at)))

  -- the task has read the value in the step before, and nobody has changed it
  pub Move-reads :
      (l' : Lock)
      → Move c l (phase c) b l'
      → reads b ≡ true
      → ((phase c ≡ lowering) ⊎ (phase c ≡ raising)) × (l'.value ≡ value_read b)
  Move-reads l' (stays ins low own out value holder) r = absurd (ground (arith, out, r))
  Move-reads l' (loads at ins low own read same) r =
      (at, ap (λ (x : Lock). x.value) same ∙ sym read)
  Move-reads l' (lowers v at to value holder) r = absurd (ground (arith, ap reads to, r))
  Move-reads l' (passes at to zero same) r = absurd (ground (arith, ap reads to, r))
  Move-reads l' (names at to value holder) r = absurd (ground (arith, ap reads to, r))
  Move-reads l' (clears at to value holder) r = absurd (ground (arith, ap reads to, r))
  Move-reads l' (raises v at to value holder) r = absurd (ground (arith, ap reads to, r))
  Move-reads l' (takes_twice at holder out) r = absurd (ground (arith, out, r))
  Move-reads l' (has_lost at holder out) r = absurd (ground (arith, out, r))
