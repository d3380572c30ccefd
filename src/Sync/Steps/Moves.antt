-- ===== src/Sync/Steps/Moves.antt =====
-- What a step of a task does to the lock: the tasks that have lowered the value, those that have
-- passed its test, and the one that holds the lock.
use lutf.Base.{
  ℕ, ◌+◌, ◌%◌, ◌≡◌, ◌≢◌, refl, ◌==◌, ltb, ne→==_false, ==_iff, Bool, Bool-cases, inl, inr, ◌⊎◌,
  true, false, arith, ap, Ends, end_returned, end_spin, Ends-bind,
}
use lutf.Lists.{Ptr, null}
use lutf.Store.{Store, Lock}
use lutf.Store.Access.{get_lock, modify_lock, interrupt_disable, interrupt_enable}
use lutf.Sync.Steps.{
  Phase, outside, asking, masking, testing, lowering, lowered, unmasking, naming, counting, holding,
  asking_again, giving, clearing, zeroing, up_masking, up_testing, waking, raising, raised,
  up_unmasking, stopped, exec, lowering_from, raising_from, counting_up_from, counting_down_from,
}
use lutf.Sync.Steps.System.{reads}
use lutf.Sync.Steps.Locks.{sema_wait-Leaves, sema_wake-Keeps}

-- The task is where `lock_acquire` has the lock and `lock_release` has not given it back.
abbrev pub inside : Phase → Bool
inside unmasking = true
inside naming = true
inside counting = true
inside holding = true
inside asking_again = true
inside giving = true
inside clearing = true
inside zeroing = true
inside up_masking = true
inside up_testing = true
inside waking = true
inside raising = true
inside (raising_from v) = true
inside (counting_up_from n) = true
inside (counting_down_from n) = true
inside (stopped phase) = inside phase
inside _ = false

-- The task has lowered the value and has not raised it again.
abbrev pub has_lowered : Phase → Bool
has_lowered lowered = true
has_lowered (stopped phase) = has_lowered phase
has_lowered phase = inside phase

-- The task is the holder.
abbrev pub owns : Phase → Bool
owns counting = true
owns holding = true
owns asking_again = true
owns giving = true
owns clearing = true
owns (counting_up_from n) = true
owns (counting_down_from n) = true
owns (stopped phase) = owns phase
owns _ = false

-- the value that the task has read
abbrev pub value_read : Phase → ℕ
value_read (lowering_from v) = v
value_read (raising_from v) = v
value_read _ = 0

-- A step from one phase to the next by the task `c`, with the lock before and after it.
pub data Move (c : Ptr) (l : Lock) (a b : Phase) (l' : Lock) : Type 0 where
  stays :
      inside b ≡ inside a
      → has_lowered b ≡ has_lowered a
      → owns b ≡ owns a
      → reads b ≡ false
      → l'.value ≡ l.value
      → l'.holder ≡ l.holder
      → Move c l a b l'
  loads :
      (a ≡ lowering) ⊎ (a ≡ raising)
      → inside b ≡ inside a
      → has_lowered b ≡ has_lowered a
      → owns b ≡ owns a
      → value_read b ≡ l.value
      → l' ≡ l
      → Move c l a b l'
  lowers :
      (v : ℕ)
      → a ≡ lowering_from v
      → b ≡ lowered
      → l'.value ≡ (v + 255) % 256
      → l'.holder ≡ l.holder
      → Move c l a b l'
  passes : a ≡ lowered → b ≡ unmasking → l.value ≡ 0 → l' ≡ l → Move c l a b l'
  names : a ≡ naming → b ≡ counting → l'.value ≡ l.value → l'.holder ≡ c → Move c l a b l'
  clears : a ≡ clearing → b ≡ zeroing → l'.value ≡ l.value → l'.holder ≡ null → Move c l a b l'
  raises :
      (v : ℕ)
      → a ≡ raising_from v
      → b ≡ raised
      → l'.value ≡ (v + 1) % 256
      → l'.holder ≡ l.holder
      → Move c l a b l'
  -- the holder asks as if it were not
  takes_twice : a ≡ asking → l.holder ≡ c → reads b ≡ false → Move c l a b l'
  -- a task asks again and is not the holder
  has_lost : a ≡ asking_again → l.holder ≢ c → reads b ≡ false → Move c l a b l'

-- A step that returns makes a move; one that does not return leaves the lock as it is.
abbrev pub Moves : Ptr → Store → (a : Phase) → Store → Phase → Type 0
Moves p s a s' b = Move s.current_task (s.lock p) a b (s'.lock p)

module _ (rounds : ℕ) (p : Ptr) (hp : p ≢ null) (s : Store) where
  pub exec-Moves :
      (a : Phase)
      → Ends
          (λ b s'. Move s.current_task (s.lock p) a b (s'.lock p))
          (λ s'. s'.lock ≡ s.lock)
          (exec rounds p a s)
  unfolding exec get_lock modify_lock interrupt_disable interrupt_enable
  exec-Moves outside = end_returned (stays refl refl refl refl refl refl)
  exec-Moves asking = elim (Bool-cases ((s.lock p).holder == s.current_task)) [
    | inl e ↦
        simp (ne→==_false p null hp, e) (end_returned (takes_twice refl ((==_iff _ _).0 e) refl))
    | inr e ↦ simp (ne→==_false p null hp, e) (end_returned (stays refl refl refl refl refl refl))
  ]
  exec-Moves asking_again = elim (Bool-cases ((s.lock p).holder == s.current_task)) [
    | inl e ↦
        simp (ne→==_false p null hp, e)
          (end_returned (stays refl refl refl refl (ground arith) (ground arith)))
    | inr e ↦ simp (ne→==_false p null hp, e) (end_returned (has_lost refl (ground arith) refl))
  ]
  exec-Moves masking = end_returned (stays refl refl refl refl refl refl)
  exec-Moves testing = elim (Bool-cases ((s.lock p).value == 0)) [
    | inl e ↦
        simp (ne→==_false p null hp, e)
          (Ends-bind (sema_wait-Leaves s.lock rounds p s refl) λ _ _ never. absurd never)
    | inr e ↦ simp (ne→==_false p null hp, e) (end_returned (stays refl refl refl refl refl refl))
  ]
  exec-Moves (counting_up_from n) =
      simp (ne→==_false p null hp)
        (end_returned (stays refl refl refl refl (ground arith) (ground arith)))
  exec-Moves (counting_down_from n) =
      simp (ne→==_false p null hp)
        (end_returned (stays refl refl refl refl (ground arith) (ground arith)))
  exec-Moves lowering =
      simp (ne→==_false p null hp) (end_returned (loads (inl refl) refl refl refl refl refl))
  exec-Moves (lowering_from v) =
      simp (ne→==_false p null hp) (end_returned (lowers v refl refl (ground arith) (ground arith)))
  exec-Moves lowered = elim (Bool-cases ((s.lock p).value == 0)) [
    | inl e ↦ simp (ne→==_false p null hp, e) (end_returned (passes refl refl (ground arith) refl))
    | inr e ↦ simp (ne→==_false p null hp, e) (end_spin refl)
  ]
  exec-Moves unmasking = end_returned (stays refl refl refl refl refl refl)
  exec-Moves naming =
      simp (ne→==_false p null hp) (end_returned (names refl refl (ground arith) (ground arith)))
  exec-Moves counting = elim (Bool-cases ((s.lock p).holder_repeat_nr == 0)) [
    | inl e ↦
        simp (ne→==_false p null hp, e)
          (end_returned (stays refl refl refl refl (ground arith) (ground arith)))
    | inr e ↦ simp (ne→==_false p null hp, e) (end_spin refl)
  ]
  exec-Moves holding = end_returned (stays refl refl refl refl refl refl)
  exec-Moves giving = elim (Bool-cases ((s.lock p).holder == s.current_task)) [
    | inl e ↦ elim (Bool-cases (ltb 1 (s.lock p).holder_repeat_nr)) [
      | inl more ↦
          simp (ne→==_false p null hp, e, more)
            (end_returned (stays refl refl refl refl (ground arith) (ground arith)))
      | inr less ↦ elim (Bool-cases ((s.lock p).holder_repeat_nr == 1)) [
        | inl one ↦
            simp (ne→==_false p null hp, e, less, one)
              (end_returned (stays refl refl refl refl refl refl))
        | inr one ↦ simp (ne→==_false p null hp, e, less, one) (end_spin refl)
      ]
    ]
    | inr e ↦ simp (ne→==_false p null hp, e) (end_spin refl)
  ]
  exec-Moves clearing =
      simp (ne→==_false p null hp) (end_returned (clears refl refl (ground arith) (ground arith)))
  exec-Moves zeroing =
      simp (ne→==_false p null hp)
        (end_returned (stays refl refl refl refl (ground arith) (ground arith)))
  exec-Moves up_masking = end_returned (stays refl refl refl refl refl refl)
  exec-Moves up_testing = elim (Bool-cases ((s.lock p).value == 0)) [
    | inl e ↦ simp (ne→==_false p null hp, e) (end_returned (stays refl refl refl refl refl refl))
    | inr e ↦ simp (ne→==_false p null hp, e) (end_spin refl)
  ]
  exec-Moves waking = Ends-bind (sema_wake-Keeps s.lock rounds p s refl) λ _ s' same. end_returned (
      stays refl refl refl refl (ap (λ (f : Ptr → Lock). (f p).value) same)
        (ap (λ (f : Ptr → Lock). (f p).holder) same))
  exec-Moves raising =
      simp (ne→==_false p null hp) (end_returned (loads (inr refl) refl refl refl refl refl))
  exec-Moves (raising_from v) =
      simp (ne→==_false p null hp) (end_returned (raises v refl refl (ground arith) (ground arith)))
  exec-Moves raised = elim (Bool-cases ((s.lock p).value == 1)) [
    | inl e ↦ simp (ne→==_false p null hp, e) (end_returned (stays refl refl refl refl refl refl))
    | inr e ↦ simp (ne→==_false p null hp, e) (end_spin refl)
  ]
  exec-Moves up_unmasking = end_returned (stays refl refl refl refl refl refl)
  exec-Moves (stopped a) = end_spin refl
