-- ===== src/Sync.antt =====
-- Semaphores and locks: src/task/sync.c. A call that blocks hands the processor over; when its task
-- runs again, it goes on at the test of its loop, `sema_down_loop`.
pub mod Waiters
pub mod Acquire
pub mod Release
pub mod LostWakeup
pub mod Init
pub mod Idle
pub mod Steps
mod Tests
use lutf.Base.{
  ℕ, ◌+◌, ◌-◌, ◌%◌, ◌^◌, Bool, true, false, not, ◌==◌, ltb, if◌then◌else◌, Cmd, Unit₀, pure, assert,
  ◌>>=◌, ◌>>◌,
}
use lutf.Lists.{Ptr, null, list_init, list_append, list_pop, list_empty, elem_find}
use lutf.Store.{Store, Lock, task_blocked, general_tag, elem2entry, general_tag_offset}
use lutf.Store.Access.{
  on_links, get_lock, modify_lock, get_current, interrupt_disable, interrupt_enable, loop_forever,
}
use lutf.Tasks.{task_block, task_unblock}

unfoldable pub sema_init : (psema : Ptr) (value : ℕ) → Cmd Store Unit₀
sema_init psema value = do
  modify_lock psema (λ l. record l { value = value })
  on_links (list_init psema)

unfoldable pub lock_init : Ptr → Cmd Store Unit₀
lock_init plock = do
  modify_lock plock (λ l. record l { holder = null })
  modify_lock plock (λ l. record l { holder_repeat_nr = 0 })
  sema_init plock 1

-- `PANIC`: `panic_spin` of src/task/debug.c blocks SIGALRM, prints and loops
unfoldable pub panic_spin : Cmd Store Unit₀
panic_spin = do interrupt_disable; loop_forever

-- the body of the loop of `sema_down`: the running task joins the waiters and is blocked
unfoldable pub sema_wait : ℕ → Ptr → Cmd Store Unit₀
sema_wait rounds psema = do
  current ← get_current
  found ← on_links (elem_find rounds psema (general_tag current))
  assert (not found)
  again ← on_links (elem_find rounds psema (general_tag current))
  if again then panic_spin else pure tt
  on_links (list_append psema (general_tag current))
  task_block task_blocked

-- One round of the loop of `sema_down`, and what follows the loop.
unfoldable pub sema_down_loop : ℕ → Ptr → Cmd Store Unit₀
sema_down_loop rounds psema = do
  l ← get_lock psema
  if l.value == 0 then sema_wait rounds psema else (do
    modify_lock psema (λ r. record r { value = (r.value + 255) % 256 })
    l' ← get_lock psema
    assert (l'.value == 0)
    interrupt_enable)

unfoldable pub sema_down : ℕ → Ptr → Cmd Store Unit₀
sema_down rounds psema = do interrupt_disable; sema_down_loop rounds psema

-- what `sema_up` does after it has woken a waiter, if there was one
unfoldable pub sema_raise : Ptr → Cmd Store Unit₀
sema_raise psema = do
  modify_lock psema (λ r. record r { value = (r.value + 1) % 256 })
  l ← get_lock psema
  assert (l.value == 1)
  interrupt_enable

-- the first waiter, if there is one, is woken
unfoldable pub sema_wake : ℕ → Ptr → Cmd Store Unit₀
sema_wake rounds psema = do
  empty ← on_links (list_empty psema)
  if not empty
      then (do
        elem ← on_links (list_pop psema)
        task_unblock rounds (elem2entry general_tag_offset elem))
      else pure tt

unfoldable pub sema_up : ℕ → Ptr → Cmd Store Unit₀
sema_up rounds psema = do
  interrupt_disable
  l ← get_lock psema
  assert (l.value == 0)
  sema_wake rounds psema
  sema_raise psema

-- what `lock_acquire` does once it has the semaphore
unfoldable pub lock_take : Ptr → Cmd Store Unit₀
lock_take plock = do
  current ← get_current
  modify_lock plock (λ l. record l { holder = current })
  l ← get_lock plock
  assert (l.holder_repeat_nr == 0)
  modify_lock plock (λ r. record r { holder_repeat_nr = 1 })

unfoldable pub lock_acquire : ℕ → Ptr → Cmd Store Unit₀
lock_acquire rounds plock = do
  l ← get_lock plock
  current ← get_current
  if not (l.holder == current)
      then (do sema_down rounds plock; lock_take plock)
      else modify_lock plock
          (λ r. record r { holder_repeat_nr = (r.holder_repeat_nr + 1) % 2 ^ 32 })

unfoldable pub lock_release : ℕ → Ptr → Cmd Store Unit₀
lock_release rounds plock = do
  l ← get_lock plock
  current ← get_current
  assert (l.holder == current)
  if ltb 1 l.holder_repeat_nr
      then modify_lock plock (λ r. record r { holder_repeat_nr = r.holder_repeat_nr - 1 })
      else (do
        assert (l.holder_repeat_nr == 1)
        modify_lock plock (λ r. record r { holder = null })
        modify_lock plock (λ r. record r { holder_repeat_nr = 0 })
        sema_up rounds plock)
