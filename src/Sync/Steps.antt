-- ===== src/Sync/Steps.antt =====
-- `lock_acquire` and `lock_release` in steps between which a clock signal can come: where a task
-- stands in them, and what it does next.
pub mod Locks
pub mod Moves
pub mod System
pub mod Invariant
pub mod Calm
pub mod Exclusion
pub mod Pair
pub mod Overtaken
pub mod Race
mod Tests
pub mod Count
use lutf.Base.{
  ℕ, zero, suc, ◌+◌, ◌-◌, ◌%◌, ◌^◌, not, ◌==◌, ltb, if◌then◌else◌, Cmd, pure, assert, ◌>>=◌, ◌>>◌,
}
use lutf.Lists.{Ptr, null}
use lutf.Store.{Store}
use lutf.Store.Access.{
  get_lock, modify_lock, get_current, interrupt_disable, interrupt_enable, loop_forever,
}
use lutf.Sync.{sema_wait, sema_wake}

-- Where a task stands: `outside` of the calls without the lock, `holding` outside of them with it,
-- and otherwise in front of a statement. In front of the test of `lock_acquire` it is `asking`, or
-- `asking_again` if it came from `holding`; it is `stopped` at an assertion that failed. A `++` or `--`
-- reads its operand and then writes it: between, the task stands at the phase that has the number it read.
pub data Phase : Type 0 where
  outside asking masking testing lowering lowered unmasking naming counting : Phase
  holding asking_again : Phase
  giving clearing zeroing up_masking up_testing waking raising raised up_unmasking : Phase
  lowering_from raising_from counting_up_from counting_down_from : (read : ℕ) → Phase
  stopped : Phase → Phase

abbrev ask : Ptr → Cmd Store Phase
ask plock = do
  l ← get_lock plock
  current ← get_current
  pure (if not (l.holder == current) then masking else counting_up_from l.holder_repeat_nr)

-- The statement in front of which the running task stands. To wake a task is one step: SIGALRM is held back until
-- its last statement. To queue up and block is one step here; System.antt has it interrupted too.
unfoldable pub exec : ℕ → Ptr → Phase → Cmd Store Phase
exec rounds plock outside = pure outside
exec rounds plock asking = ask plock
exec rounds plock asking_again = ask plock
exec rounds plock masking = do interrupt_disable; pure testing
exec rounds plock testing = do
  l ← get_lock plock
  if l.value == 0 then (do sema_wait rounds plock; pure testing) else pure lowering
exec rounds plock (counting_up_from n) = do
  modify_lock plock (λ r. record r { holder_repeat_nr = (n + 1) % 2 ^ 32 })
  pure holding
exec rounds plock lowering = do l ← get_lock plock; pure (lowering_from l.value)
exec rounds plock (lowering_from v) = do
  modify_lock plock (λ r. record r { value = (v + 255) % 256 })
  pure lowered
exec rounds plock lowered = do l ← get_lock plock; assert (l.value == 0); pure unmasking
exec rounds plock unmasking = do interrupt_enable; pure naming
exec rounds plock naming = do
  current ← get_current
  modify_lock plock (λ l. record l { holder = current })
  pure counting
exec rounds plock counting = do
  l ← get_lock plock
  assert (l.holder_repeat_nr == 0)
  modify_lock plock (λ r. record r { holder_repeat_nr = 1 })
  pure holding
exec rounds plock holding = pure holding
exec rounds plock giving = do
  l ← get_lock plock
  current ← get_current
  assert (l.holder == current)
  if ltb 1 l.holder_repeat_nr
      then pure (counting_down_from l.holder_repeat_nr)
      else (do assert (l.holder_repeat_nr == 1); pure clearing)
exec rounds plock (counting_down_from n) = do
  modify_lock plock (λ r. record r { holder_repeat_nr = (n + (2 ^ 32 - 1)) % 2 ^ 32 })
  pure holding
exec rounds plock clearing = do modify_lock plock (λ r. record r { holder = null }); pure zeroing
exec rounds plock zeroing = do
  modify_lock plock (λ r. record r { holder_repeat_nr = 0 })
  pure up_masking
exec rounds plock up_masking = do interrupt_disable; pure up_testing
exec rounds plock up_testing = do l ← get_lock plock; assert (l.value == 0); pure waking
exec rounds plock waking = do sema_wake rounds plock; pure raising
exec rounds plock raising = do l ← get_lock plock; pure (raising_from l.value)
exec rounds plock (raising_from v) = do
  modify_lock plock (λ r. record r { value = (v + 1) % 256 })
  pure raised
exec rounds plock raised = do l ← get_lock plock; assert (l.value == 1); pure up_unmasking
exec rounds plock up_unmasking = do interrupt_enable; pure outside
exec rounds plock (stopped phase) = loop_forever
