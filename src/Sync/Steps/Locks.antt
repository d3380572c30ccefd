-- ===== src/Sync/Steps/Locks.antt =====
-- What blocks, wakes and schedules tasks leaves the locks as they are, whatever the lists are.
use lutf.Base.{
  ℕ, ◌≡◌, ◌==◌, Bool, Bool-cases, inl, inr, true, false, not, Cmd, Run, ok, spin, fault, switched,
  out_of_fuel, assert, put_back, Ends, end_returned, end_fault, end_spin, end_switched, end_stopped,
  Ends-bind,
}
use lutf.Lists.{Ptr, Links, null, list_empty, list_pop, list_append, list_push, elem_find}
use lutf.Store.{
  Store, Lock, Task, TaskStatus, task_ready_list, elem2entry, general_tag, general_tag_offset,
  task_running, task_ready, task_blocked, ◌=ₛ◌,
}
use lutf.Store.Access.{
  set_links, on_links, get_task, modify_task, interrupt_disable, interrupt_enable,
}
use lutf.Tasks.{
  block_task_schedule, task_block, task_unblock, switch_to_next, schedule, get_next_task, is_parked,
}
use lutf.Sync.{sema_wait, sema_wake, panic_spin}

module _ (l : Ptr → Lock) where
  -- The locks are `l`.
  abbrev pub Locks : Store → Type 0
  Locks s = s.lock ≡ l

  abbrev pub Keeps : {A : Type 0} → Run Store A → Type 0
  Keeps r = Ends (λ _. Locks) Locks r

  -- The call does not return.
  abbrev pub Leaves : {A : Type 0} → Run Store A → Type 0
  Leaves r = Ends (λ _ _. ⊥) Locks r

  links-Keeps :
      {A : Type 0} (s : Store) (r : Run Links A) → Locks s → Keeps (put_back set_links s r)
  links-Keeps s (ok a m) h = end_returned h
  links-Keeps s fault h = end_fault
  links-Keeps s (spin m) h = end_spin h
  links-Keeps s (switched m) h = end_switched h
  links-Keeps s out_of_fuel h = end_stopped

  on_links-Keeps : {A : Type 0} (c : Cmd Links A) (s : Store) → Locks s → Keeps (on_links c s)
  on_links-Keeps c s h = links-Keeps s (c s.links) h

  assert-Keeps : (b : Bool) (s : Store) → Locks s → Keeps (assert b s)
  assert-Keeps true s h = end_returned h
  assert-Keeps false s h = end_spin h

  get_task-Keeps : (t : Ptr) (s : Store) → Locks s → Keeps (get_task t s)
  unfolding get_task
  get_task-Keeps t s h = elim (Bool-cases (t == null)) [
    | inl e ↦ rw e end_fault
    | inr e ↦ rw e (end_returned h)
  ]

  modify_task-Keeps : (t : Ptr) (f : Task → Task) (s : Store) → Locks s → Keeps (modify_task t f s)
  unfolding modify_task
  modify_task-Keeps t f s h = elim (Bool-cases (t == null)) [
    | inl e ↦ rw e end_fault
    | inr e ↦ rw e (end_returned h)
  ]

  block_task_schedule-Leaves : (s : Store) → Locks s → Leaves (block_task_schedule s)
  unfolding block_task_schedule
  block_task_schedule-Leaves s h =
      Ends-bind (on_links-Keeps (list_empty task_ready_list) s h) λ b s₁ h₁. elim (Bool-cases b) [
        | inl e ↦ rw e (end_spin h₁)
        | inr e ↦ rw e (
            Ends-bind (on_links-Keeps (list_empty task_ready_list) s₁ h₁) λ b' s₂ h₂.
              Ends-bind (assert-Keeps (not b') s₂ h₂) λ _ s₃ h₃.
                Ends-bind (on_links-Keeps (list_pop task_ready_list) s₃ h₃) λ tag s₄ h₄.
                  let next = elem2entry general_tag_offset tag in
                  Ends-bind (modify_task-Keeps next (λ r. record r { status = task_running }) s₄ h₄)
                    λ _ s₅ h₅.
                      Ends-bind
                        (modify_task-Keeps s₅.current_task (λ r. record r { context = s₅.cpu })
                          (record s₅ { current_task = next }) h₅)
                        λ _ s₆ h₆.
                          Ends-bind
                            (Ends-bind (get_task-Keeps next s₆ h₆) λ _ s₇ h₇. end_returned h₇)
                            λ _ s₈ h₈. end_switched h₈)
      ]

  task_block-Leaves : (status : TaskStatus) (s : Store) → Locks s → Leaves (task_block status s)
  unfolding task_block
  task_block-Leaves status s h = Ends-bind (assert-Keeps (is_parked status) s h) λ _ s₁ h₁.
      Ends-bind (modify_task-Keeps s₁.current_task (λ r. record r { status = status }) s₁ h₁)
        λ _ s₂ h₂. block_task_schedule-Leaves s₂ h₂

  pub sema_wait-Leaves :
      (rounds : ℕ) (p : Ptr) (s : Store) → Locks s → Leaves (sema_wait rounds p s)
  unfolding sema_wait panic_spin interrupt_disable
  sema_wait-Leaves rounds p s h =
      let find = elem_find rounds p (general_tag s.current_task) in
      Ends-bind (on_links-Keeps find s h) λ found s₁ h₁.
        Ends-bind (assert-Keeps (not found) s₁ h₁) λ _ s₂ h₂.
          Ends-bind (on_links-Keeps find s₂ h₂) λ again s₃ h₃. elim (Bool-cases again) [
            | inl e ↦ rw e (end_spin h₃)
            | inr e ↦ rw e (
                Ends-bind (on_links-Keeps (list_append p (general_tag s.current_task)) s₃ h₃)
                  λ _ s₅ h₅. task_block-Leaves task_blocked s₅ h₅)
          ]

  task_unblock-Keeps :
      (rounds : ℕ) (t : Ptr) (s : Store) → Locks s → Keeps (task_unblock rounds t s)
  unfolding task_unblock interrupt_disable interrupt_enable
  task_unblock-Keeps rounds t s h =
      Ends-bind (get_task-Keeps t (record s { unmasked = false }) h) λ r s₁ h₁.
        Ends-bind (assert-Keeps (is_parked r.status) s₁ h₁) λ _ s₂ h₂.
          elim (Bool-cases (r.status =ₛ task_ready)) [
            | inl e ↦ rw e (end_returned h₂)
            | inr e ↦ rw e (
                Ends-bind
                  (Ends-bind
                    (on_links-Keeps (elem_find rounds task_ready_list (general_tag t)) s₂ h₂)
                    λ found s₃ h₃. Ends-bind (assert-Keeps (not found) s₃ h₃) λ _ s₄ h₄.
                      Ends-bind (on_links-Keeps (list_push task_ready_list (general_tag t)) s₄ h₄)
                        λ _ s₅ h₅.
                          modify_task-Keeps t (λ r'. record r' { status = task_ready }) s₅ h₅)
                  λ _ s₆ h₆. end_returned h₆)
          ]

  pub sema_wake-Keeps : (rounds : ℕ) (p : Ptr) (s : Store) → Locks s → Keeps (sema_wake rounds p s)
  unfolding sema_wake
  sema_wake-Keeps rounds p s h = Ends-bind (on_links-Keeps (list_empty p) s h) λ empty s₁ h₁.
      elim (Bool-cases empty) [
        | inl e ↦ rw e (end_returned h₁)
        | inr e ↦ rw e (
            Ends-bind (on_links-Keeps (list_pop p) s₁ h₁)
              λ elem s₂ h₂. task_unblock-Keeps rounds (elem2entry general_tag_offset elem) s₂ h₂)
      ]

  pub schedule-Keeps : (rounds : ℕ) (s : Store) → Locks s → Keeps (schedule rounds s)
  unfolding schedule switch_to_next get_next_task
  schedule-Keeps rounds s h =
      let c = s.current_task in
      Ends-bind (on_links-Keeps (elem_find rounds task_ready_list (general_tag c)) s h)
        λ found s₁ h₁. Ends-bind (assert-Keeps (not found) s₁ h₁) λ _ s₂ h₂.
          Ends-bind (on_links-Keeps (list_append task_ready_list (general_tag c)) s₂ h₂) λ _ s₃ h₃.
            Ends-bind (modify_task-Keeps c (λ r. record r { ticks = r.priority }) s₃ h₃) λ _ s₄ h₄.
              Ends-bind (modify_task-Keeps c (λ r. record r { status = task_ready }) s₄ h₄)
                λ _ s₅ h₅.
                  Ends-bind (on_links-Keeps (list_empty task_ready_list) s₅ h₅) λ empty s₆ h₆.
                    elim (Bool-cases empty) [
                      | inl e ↦ rw e (end_spin h₆)
                      | inr e ↦ rw e (
                          Ends-bind
                            (Ends-bind (on_links-Keeps (list_pop task_ready_list) s₆ h₆)
                              λ tag s₇ h₇.
                                let next = elem2entry general_tag_offset tag in
                                Ends-bind
                                  (modify_task-Keeps next (λ r. record r { status = task_running })
                                    s₇ h₇)
                                  λ _ s₈ h₈. end_returned {a = next} h₈)
                            λ next s₉ h₉.
                              Ends-bind
                                (modify_task-Keeps s₉.current_task
                                  (λ r. record r { context = s₉.cpu }) s₉ h₉)
                                λ _ s₁₀ h₁₀.
                                  Ends-bind
                                    (get_task-Keeps next (record s₁₀ { current_task = next }) h₁₀)
                                    λ _ s₁₁ h₁₁. end_returned h₁₁)
                    ]
