-- ===== src/Tasks/Tests.antt =====
-- The theorems about the scheduler at small stores.
use lutf.Base.{refl, ◌≡◌, [], ◌∷◌, true, arith, Returns}
use lutf.Lists.Chain.{nodes, SameOutside}
use lutf.Store.{Store, task_ready_list}
use lutf.Samples.{busy_links, idle_links, a_store, busy_ready}
use lutf.Sync.Acquire.{free_lock}
use lutf.Tasks.{schedule, task_unblock}
use lutf.Tasks.Queue.{tags}
use lutf.Tasks.Switch.{Switched}
use lutf.Tasks.Preempt.{preempted, schedule_lem}
use lutf.Tasks.RoundRobin.{Runs, preemptions, preemptions-reach}
use lutf.Tasks.Park.{Woken, task_unblock-Woken}

abbrev busy : Store
busy = a_store busy_links free_lock

abbrev idle : Store
idle = a_store idle_links free_lock

busy-Runs : Runs busy 108 (100 ∷ 104 ∷ [])
busy-Runs = record { current = refl; ready = busy_ready; task = omega arith; out = refl }

preemptions-reach_example : Returns (λ _ s'. Runs s' 104 (108 ∷ 100 ∷ [])) (preemptions 5 2 busy)
preemptions-reach_example = preemptions-reach 5 (100 ∷ []) 104 [] busy-Runs (omega arith)

schedule_lem_example :
    Returns
      (λ _ s'.
        Switched busy 108 100 (preempted busy) (104 ∷ 108 ∷ []) s'
        × SameOutside (nodes task_ready_list (tags (100 ∷ 104 ∷ 108 ∷ []))) busy.links s'.links
        × (s'.unmasked ≡ true))
      (schedule 5 busy)
schedule_lem_example =
    schedule_lem 5 busy (100 ∷ 104 ∷ []) (104 ∷ 108 ∷ []) 100 busy_ready (omega arith) refl
      (omega arith) refl

task_unblock-Woken_example :
    Returns (λ _. Woken busy 112 (100 ∷ 104 ∷ [])) (task_unblock 5 112 busy)
task_unblock-Woken_example =
    task_unblock-Woken 5 busy 112 (100 ∷ 104 ∷ []) busy_ready (omega arith) refl refl (omega arith)
