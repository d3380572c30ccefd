-- ===== src/Timers.antt =====
-- The timers of src/interrupt/timer.c and src/include/timer.h: circular lists of timer nodes, and the
-- five wheels of such lists, the slots. A list is known by the address of its head; addresses count
-- in units of `struct LIST_TIMER`, and a timer node has the address of its `ltTimer`, its first field.
pub mod Wheels
pub mod Run
pub mod Circle
pub mod Unlink
pub mod Slots
pub mod Cascade
pub mod Levels
pub mod Spec
pub mod Refine
pub mod Expiry
pub mod Due
pub mod Locked
pub mod Manage
pub mod Start
mod Tests
use lutf.Base.{
  ℕ, zero, suc, ◌+◌, Bool, true, false, ◌==◌, if◌then◌else◌, Cmd, Unit₀, ok, pure, fault, ◌>>=◌,
  ◌>>◌,
}
use lutf.Lists.{Ptr, null, Links, update, get_next, get_prev, set_next, set_prev}

-- `pNew` between two nodes
unfoldable pub list_timer_insert : (p_new p_prev p_next : Ptr) → Cmd Links Unit₀
unfolding set_next set_prev
list_timer_insert p_new p_prev p_next = do
  set_prev p_next p_new
  set_next p_new p_next
  set_prev p_new p_prev
  set_next p_prev p_new

unfoldable pub list_timer_insert_head : (p_new p_head : Ptr) → Cmd Links Unit₀
unfolding get_next
list_timer_insert_head p_new p_head = do n ← get_next p_head; list_timer_insert p_new p_head n

unfoldable pub list_timer_insert_tail : (p_new p_head : Ptr) → Cmd Links Unit₀
unfolding get_prev
list_timer_insert_tail p_new p_head = do p ← get_prev p_head; list_timer_insert p_new p p_head

unfoldable pub list_timer_replace : (p_old p_new : Ptr) → Cmd Links Unit₀
unfolding get_next get_prev set_next set_prev
list_timer_replace p_old p_new = do
  n ← get_next p_old
  set_next p_new n
  n' ← get_next p_new
  set_prev n' p_new
  p ← get_prev p_old
  set_prev p_new p
  p' ← get_prev p_new
  set_next p' p_new

unfoldable pub list_timer_replace_init : (p_old p_new : Ptr) → Cmd Links Unit₀
unfolding set_next set_prev
list_timer_replace_init p_old p_new = do
  list_timer_replace p_old p_new
  set_next p_old p_old
  set_prev p_old p_old

-- the two writes of `delete_timer` that take a node out of its list
unfoldable pub list_timer_unlink : Ptr → Cmd Links Unit₀
unfolding get_next get_prev set_next set_prev
list_timer_unlink p_list_tmr = do
  p ← get_prev p_list_tmr
  n ← get_next p_list_tmr
  set_next p n
  n' ← get_next p_list_tmr
  p' ← get_prev p_list_tmr
  set_prev n' p'

-- The heads from `arr` on, `size` of them, become empty lists. `i` heads are done.
unfoldable pub init_from : (size i : ℕ) (arr : Ptr) → Cmd Links Unit₀
unfolding set_next set_prev
init_from zero i arr = pure tt
init_from (suc size) i arr = do
  set_prev (arr + i) (arr + i)
  set_next (arr + i) (arr + i)
  init_from size (suc i) arr

unfoldable pub init_array_list_timer : (arr_list_timer : Ptr) (n_size : ℕ) → Cmd Links Unit₀
init_array_list_timer arr_list_timer n_size = init_from n_size 0 arr_list_timer
