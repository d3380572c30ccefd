-- ===== src/Timers/Tests.antt =====
-- The theorems about the timers at a small manager: it lies at 16, its heads from 17 to 528, and one
-- timer, 600, stands in one slot.
use lutf.Base.{
  ℕ, ◌+◌, ◌-◌, ◌%◌, ◌^◌, ◌<◌, ◌≤◌, ◌≡◌, refl, ◌==◌, if◌then◌else◌, List, [], ◌∷◌, arith, ok,
  Returns, Bool-cases, inl, inr, ==_iff, out_of_fuel,
}
use lutf.Base.Int.{pos}
use lutf.Lists.{Ptr, Links}
use lutf.Lists.Chain.{SameOutside}
use lutf.Samples.{a_store, quiet_links, quiet_waiting}
use lutf.Sync.Acquire.{free_lock, LockSet}
use lutf.Timers.Due.{Ran, run_from_on_time, run_from_early}
use lutf.Timers.Expiry.{run_from_endless}
use lutf.Timers.Levels.{cascaded, cascade-cascaded}
use lutf.Timers.Cascade.{Holds}
use lutf.Timers.Locked.{run_timer-locked_ticks}
use lutf.Timers.Manage.{Created, create_timer-Created, cut, delete_timer-IsWheel}
use lutf.Sync.Idle.{IsIdle}
use lutf.Timers.Run.{Callbacks, run_from, run_timer, create_timer, delete_timer, timer_init}
use lutf.Timers.Slots.{IsHead, IsWheel, put, add_timer-IsWheel}
use lutf.Timers.Spec.{Timing, locked_ticks, Matches, Shows}
use lutf.Timers.Start.{timer_init-Created}
use lutf.Timers.Wheels.{Clock, TimerNode, slot, add_timer, cascade, get_jiffies}

-- the timer 600 in the slot at `h`
abbrev one_timer : Ptr → Links
one_timer h = record {
  next = λ p. if p == 600 then h else (if p == h then 600 else p);
  prev = λ p. if p == 600 then h else (if p == h then 600 else p);
}

abbrev one_slot : Ptr → Ptr → List Ptr
one_slot h k = if k == h then 600 ∷ [] else []

one_timer-IsWheel :
    (h : Ptr) → IsHead 16 h → (ts : List Ptr) → IsWheel (one_timer h) 16 (600 ∷ ts) (one_slot h)
one_timer-IsWheel h hh ts = record {
  place = omega arith;
  circle = λ k hk. elim (Bool-cases (k == h)) [
    | inl e ↦
        rw (e, (==_iff k h).0 e)
          (record {
            chain = (ground arith, ground arith, (ground arith, ground arith));
            distinct = ground arith;
            not_null = ground arith;
          })
    | inr n ↦ rw n (record {
      chain = (ground arith, ground arith);
      distinct = ground arith;
      not_null = ground arith;
    })
  ];
  apart = λ k k' hk hk' ne a i. ground arith;
  nodes = λ k hk x i. ground arith;
  within = λ k hk x i. ground arith;
}

abbrev no_timer : Links
no_timer = record { next = λ p. p; prev = λ p. p }

no_timer-IsWheel : IsWheel no_timer 16 [] (λ _. [])
no_timer-IsWheel = record {
  place = omega arith;
  circle =
      λ k hk. record { chain = (refl, refl); distinct = ground arith; not_null = ground arith };
  apart = λ k k' hk hk' ne a i. ground arith;
  nodes = λ k hk x i. ground arith;
  within = λ k hk x i. ground arith;
}

-- a timer that is due at `t` and is not periodic
abbrev a_node : ℕ → TimerNode
a_node t = record { u_expires = t; u_period = 0; timer_fn = 7; p_param = 9 }

-- the manager at the time 1000
abbrev a_clock : Links → ℕ → Clock
a_clock l t = record {
  store = record (a_store quiet_links free_lock) { supply = 700 ∷ 800 ∷ [] };
  wheel = l;
  node = λ _. a_node t;
  timer_manager = 16;
  lock = 8;
  u_exit_flag = 0;
  u_jiffies = 1000;
  ticks = 0;
}

abbrev a_timing : (Ptr → List Ptr) → ℕ → Timing
a_timing f t = record {
  store = (a_clock no_timer t).store;
  node = λ _. a_node t;
  slots = f;
  u_jiffies = 1000;
}

-- callbacks that change nothing
abbrev quiet : Callbacks
quiet timer_fn p_param s = ok tt s

quiet-IsIdle : (t : ℕ) → IsIdle (a_clock no_timer t).store 8
quiet-IsIdle t = record {
  free = refl;
  nobody = quiet_waiting;
  not_null = ground arith;
  running = ground arith;
}

one-Shows :
    (t : ℕ)
    → Shows
        (a_clock (one_timer 250) t)
        (600 ∷ [])
        (a_clock (one_timer 250) t)
        (a_timing (one_slot 250) t)
one-Shows t = record { wheel = one_timer-IsWheel 250 (omega arith) []; same = refl }

add_timer-IsWheel_example :
    Returns
      (λ _ c'.
        let h = slot 16 1000 1100 in
        IsWheel c'.wheel 16 (600 ∷ 601 ∷ []) (put (one_slot 93) h 601)
        × SameOutside (601 ∷ h ∷ one_slot 93 h) (one_timer 93) c'.wheel
        × (c' ≡ record (a_clock (one_timer 93) 1100) { wheel = c'.wheel }))
      (add_timer 601 (a_clock (one_timer 93) 1100))
add_timer-IsWheel_example =
    add_timer-IsWheel (a_clock (one_timer 93) 1100) (600 ∷ 601 ∷ []) (one_slot 93) 601
      (one_timer-IsWheel 93 (omega arith) (601 ∷ []))
      (record { known = ground arith; behind = omega arith; absent = λ h hh. ground arith })

cascade-cascaded_example :
    Returns
      (Holds
        (record (a_clock (one_timer 275) 1536) { u_jiffies = 1280 })
        (600 ∷ [])
        (cascaded 16 1280 (λ _. a_node 1536) (one_slot 275)))
      (cascade 2 (record (a_clock (one_timer 275) 1536) { u_jiffies = 1280 }))
cascade-cascaded_example =
    cascade-cascaded 2 (record (a_clock (one_timer 275) 1536) { u_jiffies = 1280 }) (600 ∷ [])
      (one_slot 275) (one_timer-IsWheel 275 (omega arith) []) (omega arith)

run_timer-locked_ticks_example :
    Matches
      (Shows (a_clock (one_timer 250) 1001) (600 ∷ []))
      (run_timer quiet 10 2 1 2000000 (a_clock (one_timer 250) 1001))
      (locked_ticks quiet 16 8 2 3 (a_timing (one_slot 250) 1001))
run_timer-locked_ticks_example =
    run_timer-locked_ticks quiet (a_clock (one_timer 250) 1001) (a_clock (one_timer 250) 1001)
      (600 ∷ []) (a_timing (one_slot 250) 1001) 10 2 1 2000000 3 (one-Shows 1001) (omega arith)
      (omega arith) refl (omega arith)

due_1100-IsWheel : IsWheel (one_timer 93) 16 (600 ∷ []) (put (λ _. []) (slot 16 1000 1100) 600)
unfolding slot
due_1100-IsWheel = one_timer-IsWheel 93 (omega arith) []

run_from_on_time_example :
    Returns
      (λ _.
        Ran
          (a_clock (one_timer 93) 1100)
          (600 ∷ [])
          (a_clock (one_timer 93) 1100).store
          1101
          (λ _. []))
      (run_from quiet 300 2 1100 (a_clock (one_timer 93) 1100))
    × ((now : ℕ)
        → 1000 ≤ now
        → now < 1100
        → Returns
            (λ _.
              Ran
                (a_clock (one_timer 93) 1100)
                (600 ∷ [])
                (a_clock (one_timer 93) 1100).store
                (now + 1)
                (put (λ _. []) (slot 16 1000 1100) 600))
            (run_from quiet 300 2 now (a_clock (one_timer 93) 1100)))
run_from_on_time_example =
    run_from_on_time quiet (a_clock (one_timer 93) 1100) (600 ∷ []) 300 2 1100 600
      (a_clock (one_timer 93) 1100).store due_1100-IsWheel (omega arith) (omega arith) refl
      (omega arith) (omega arith) (omega arith) refl

due_2000-IsWheel : IsWheel (one_timer 225) 16 (600 ∷ []) (put (λ _. []) (slot 16 1000 2000) 600)
unfolding slot
due_2000-IsWheel = one_timer-IsWheel 225 (omega arith) []

-- A timer that is due in a second runs after 232 ms.
run_from_early_example :
    (1232 < 2000)
    × Returns
        (λ _.
          Ran
            (a_clock (one_timer 225) 2000)
            (600 ∷ [])
            (a_clock (one_timer 225) 2000).store
            1233
            (λ _. []))
        (run_from quiet 300 2 1232 (a_clock (one_timer 225) 2000))
run_from_early_example =
    run_from_early quiet (a_clock (one_timer 225) 2000) (600 ∷ []) 300 2 2000 600
      (a_clock (one_timer 225) 2000).store due_2000-IsWheel (omega arith) (omega arith) refl
      (omega arith) (omega arith) (omega arith) refl

run_from_endless_example : run_from quiet 70000 1 (2 ^ 32 - 1) (a_clock no_timer 0) ≡ out_of_fuel
run_from_endless_example =
    run_from_endless quiet (a_clock no_timer 0) (a_clock no_timer 0) [] (a_timing (λ _. []) 0) 70000
      1 (record { wheel = no_timer-IsWheel; same = refl }) (omega arith) refl (omega arith)

create_timer-Created_example :
    Returns
      (λ r c'.
        (r ≡ 700)
        × Created
            (record (a_clock (one_timer 250) 1001) {
              store = record (a_store quiet_links free_lock) { supply = 800 ∷ [] };
            })
            (600 ∷ [])
            (one_slot 250)
            (record { u_expires = 1100; u_period = 50; timer_fn = 7; p_param = 3 })
            700
            c')
      (create_timer 5 7 3 100 50 (a_clock (one_timer 250) 1001))
create_timer-Created_example =
    create_timer-Created 5 (a_clock (one_timer 250) 1001) (600 ∷ []) (one_slot 250) 7 3 100 50 700
      (800 ∷ []) (one_timer-IsWheel 250 (omega arith) []) (ground arith) refl (omega arith)
      (λ h hh. ground arith) (quiet-IsIdle 1001)

delete_timer-IsWheel_example :
    Returns
      (λ r c'.
        (r ≡ pos 0)
        × IsWheel c'.wheel 16 (600 ∷ []) (cut (one_slot 250) 250 [])
        × LockSet (a_clock (one_timer 250) 1001).store 8 free_lock c'.store
        × (c' ≡ record (a_clock (one_timer 250) 1001) { store = c'.store; wheel = c'.wheel }))
      (delete_timer 5 600 (a_clock (one_timer 250) 1001))
delete_timer-IsWheel_example =
    delete_timer-IsWheel 5 (a_clock (one_timer 250) 1001) (600 ∷ []) (one_slot 250) 250 600 [] []
      (one_timer-IsWheel 250 (omega arith) []) (omega arith) refl (quiet-IsIdle 1001)

timer_init-Created_example :
    Returns
      (λ _ c'.
        (c'.timer_manager ≡ 16)
        × (c'.u_jiffies ≡ get_jiffies 3 5000000)
        × (c'.u_exit_flag ≡ 0)
        × (c'.store.lock 8 ≡ free_lock)
        × IsWheel c'.wheel 16
            (800 ∷ [])
            (put (λ _. []) (slot 16 c'.u_jiffies ((c'.u_jiffies + 150000) % 2 ^ 32)) 800)
        × (c'.node 800 ≡ record {
          u_expires = (c'.u_jiffies + 150000) % 2 ^ 32;
          u_period = 150000;
          timer_fn = 7;
          p_param = 16;
        }))
      (timer_init 5 7 3 5000000 (record (a_clock no_timer 0) {
        store = record (a_store quiet_links free_lock) { supply = 16 ∷ 800 ∷ [] };
      }))
timer_init-Created_example =
    timer_init-Created 5
      (record (a_clock no_timer 0) {
        store = record (a_store quiet_links free_lock) { supply = 16 ∷ 800 ∷ [] };
      })
      7 3 5000000 16 800 [] refl (omega arith) (omega arith) (ground arith) (ground arith)
      (omega arith) (ground arith)
