-- ===== src/Console/Exclusive.antt =====
-- `console_put_str` with the console free, and with another task that holds it.
use lutf.Base.{
  ℕ, ◌<◌, ◌≡◌, refl, ◌≢◌, List, ◌∷◌, ◌∉◌, Apart, length, arith, Returns, returns, false,
}
use lutf.Console.{Screen, concole_lock, console_acquire, console_release, console_put_str}
use lutf.Lists.{Ptr}
use lutf.Sync.Acquire.{free_lock, LockSet, Waits, lock_acquire_blocked}
use lutf.Sync.Idle.{IsIdle, taken_and_given}
use lutf.Tasks.Park.{HandsOver, hands_over, HandsOver-eq}
use lutf.Tasks.Queue.{IsQueue, IsReady, IsTask}

module _ {W : Type 0} (os_write : List ℕ → W → W) (rounds : ℕ) (str : List ℕ) (c : Screen W) where
  -- `console_put_str` with an idle lock writes the string once, and the lock is free again; of the memory of
  -- the library nothing but that lock and the signal mask has been touched.
  pub console_put_str-written :
      IsIdle c.store concole_lock
      → Returns
          (λ _ c'.
            (c'.world ≡ os_write str c.world) × LockSet c.store concole_lock free_lock c'.store)
          (console_put_str os_write rounds str c)
  unfolding console_put_str console_acquire console_release
  console_put_str-written idle =
      let (s₁, s₂, take, give, set, mask) = taken_and_given rounds c.store concole_lock idle in
      rw (take, give) (returns (refl, set))

  -- `console_put_str` while another task holds the console writes nothing: the running task, neither a
  -- waiter nor ready, joins the waiters, last, and the first ready task runs. No ready task waits for
  -- the lock, and `rounds` exceeds the number of waiters.
  pub console_put_str-Waits :
      (t : Ptr) (ws ts : List Ptr)
      → (c.store.lock concole_lock).holder ≢ c.store.current_task
      → (c.store.lock concole_lock).value ≡ 0
      → IsQueue c.store.links concole_lock ws
      → IsReady c.store.links (t ∷ ts)
      → IsTask c.store.current_task
      → c.store.current_task ∉ ws
      → c.store.current_task ∉ (t ∷ ts)
      → Apart (t ∷ ts) ws
      → length ws < rounds
      → HandsOver
          (λ c'.
            (c'.world ≡ c.world)
            × Waits (record c.store { unmasked = false }) concole_lock t ws ts c'.store)
          (console_put_str os_write rounds str c)
  unfolding console_put_str console_acquire
  console_put_str-Waits t ws ts other taken wait ready task out_ws out_ts apart lt =
      let (s, eq, waits) = HandsOver-eq (
        lock_acquire_blocked rounds c.store concole_lock t ws ts (omega arith) other taken wait
          ready task out_ws out_ts apart lt) in
      rw eq (hands_over (refl, waits))
