-- ===== src/Sync/Tests.antt =====
-- The theorems about locks at small stores.
use lutf.Base.{refl, ◌≡◌, [], ◌∷◌, false, true, arith, Returns}
use lutf.Store.{Store, task_ready, Lock}
use lutf.Samples.{
  busy_links, idle_links, quiet_links, a_store, busy_ready, busy_waiting, idle_ready, idle_waiting,
}
use lutf.Tasks.Queue.{IsReady, IsQueue}
use lutf.Tasks.Park.{HandsOver}
use lutf.Sync.{lock_acquire, lock_release}
use lutf.Sync.Acquire.{free_lock, held, Waits, lock_acquire_blocked}
use lutf.Sync.Release.{lock_release_wakes}
use lutf.Sync.LostWakeup.{Stranding, sema_up-Stranding}

abbrev quiet : Lock → Store
quiet = a_store quiet_links

abbrev busy : Store
busy = a_store busy_links (held 100 1)

abbrev holding : Store
holding = a_store busy_links (held 108 1)

abbrev idle : Store
idle = a_store idle_links (held 108 1)

lock_acquire_blocked_example :
    HandsOver
      (Waits (record busy { unmasked = false }) 8 100 (112 ∷ []) (104 ∷ []))
      (lock_acquire 5 8 busy)
lock_acquire_blocked_example =
    lock_acquire_blocked 5 busy 8 100 (112 ∷ []) (104 ∷ []) (omega arith) (omega arith) refl
      busy_waiting busy_ready (omega arith) refl refl (λ a i. ground arith) (omega arith)

lock_release_wakes_example :
    Returns
      (λ _ s'.
        (s'.lock 8 ≡ free_lock)
        × IsReady s'.links (112 ∷ 100 ∷ 104 ∷ [])
        × IsQueue s'.links 8 []
        × ((s'.task 112).status ≡ task_ready)
        × (s'.current_task ≡ 108)
        × (s'.unmasked ≡ true))
      (lock_release 5 8 holding)
lock_release_wakes_example =
    lock_release_wakes 5 holding 8 112 [] (100 ∷ 104 ∷ []) (omega arith) refl busy_waiting
      busy_ready (λ a i. ground arith) refl (omega arith)

sema_up-Stranding_example : Stranding 5 idle 8 112 []
sema_up-Stranding_example =
    sema_up-Stranding 5 idle 8 112 [] (omega arith) refl idle_waiting idle_ready (omega arith) refl
      refl (omega arith)
