-- ===== src/Sync/Steps/Tests.antt =====
-- The theorems about interleavings at two tasks: 108, which runs, and 100.
use lutf.Base.{refl, ◌≡◌, ◌==◌, [], ◌∷◌, List, true, arith, if◌then◌else◌}
use lutf.Lists.{
  Ptr, elem_find, elem_find_from, list_append, list_insert_before, list_pop, list_empty,
  list_remove, get_next, get_prev, set_next, set_prev,
}
use lutf.Samples.{busy_links, alone_links, alone_ready, a_store}
use lutf.Tasks.{schedule, switch_to_next, get_next_task, task_block, block_task_schedule}
use lutf.Sync.{sema_wait}
use lutf.Sync.Acquire.{free_lock}
use lutf.Sync.Steps.{outside, testing, naming, holding, raising, raised, stopped, exec}
use lutf.Sync.Steps.Race.{lock_given_twice}
use lutf.Sync.Steps.Pair.{Two}
use lutf.Sync.Steps.Moves.{inside}
use lutf.Sync.Steps.System.{
  State, Reach, between_changes, anywhere, here, later, runs, blocks, asks, clock,
}
use lutf.Sync.Steps.Overtaken.{sema_up_overtaken}
use lutf.Store.Access.{
  get_lock, modify_lock, interrupt_disable, interrupt_enable, get_task, modify_task,
}

abbrev three : List Ptr
three = 100 ∷ 104 ∷ 108 ∷ []

abbrev at_start : State
at_start = record { store = a_store busy_links free_lock; phase = λ _. outside }

-- 108 takes the lock
record IsTaken (b : State) : Type 0 where
  reach : Reach between_changes 5 8 three at_start b
  current : b.store.current_task ≡ 108
  phase : b.phase 108 ≡ holding
  mask : b.store.unmasked ≡ true

taken : (b : State) × IsTaken b
unfolding exec get_lock modify_lock interrupt_disable interrupt_enable
taken =
    let r =
      later
        (later
          (later
            (later
              (later
                (later
                  (later (later (later here (asks refl refl refl)) (runs _ _ refl refl refl))
                    (runs _ _ refl refl refl))
                  (runs _ _ refl refl refl))
                (runs _ _ refl refl refl))
              (runs _ _ refl refl refl))
            (runs _ _ refl refl refl))
          (runs _ _ refl refl refl))
        (runs _ _ refl refl refl) in
    let r = later r (runs _ _ refl refl refl) in
    (_, record { reach = r; current = refl; phase = refl; mask = refl })

-- the clock comes, and 100 asks for the lock and is blocked
asked : (b : State) × Reach between_changes 5 8 three at_start b
unfolding exec get_lock modify_lock interrupt_disable interrupt_enable schedule switch_to_next
    get_next_task sema_wait task_block block_task_schedule elem_find elem_find_from list_append
    list_insert_before list_pop list_empty list_remove get_next get_prev set_next set_prev get_task
    modify_task taken
asked =
    let r =
      later
        (later
          (later (later (later taken.1.reach (clock _ refl refl refl refl)) (asks refl refl refl))
            (runs _ _ refl refl refl))
          (runs _ _ refl refl refl))
        (blocks _ refl refl) in
    (_, r)

-- 108 has woken 100 and is about to raise the value
abbrev woken : State
woken = record {
  store = a_store alone_links (record { holder = 0; value = 0; holder_repeat_nr = 0 });
  phase = λ t. if t == 108 then raising else testing;
}

woken-Two : Two 8 108 100 raising testing 0 0 woken
woken-Two = record {
  queue = record { current = refl; ready = alone_ready; task = omega arith; out = refl };
  first = refl;
  second = refl;
  value = refl;
  holder = refl;
}

sema_up_overtaken_example :
    (b : State) × Reach between_changes 5 8 three woken b
    × (b.phase 108 ≡ stopped raised)
    × (b.phase 100 ≡ naming)
sema_up_overtaken_example =
    sema_up_overtaken 5 8 three 108 100 0 woken (omega arith) refl refl (omega arith) (omega arith)
      woken-Two refl

-- 108 has been woken by 100, which has given the lock back
abbrev given : State
given = record {
  store = a_store alone_links free_lock;
  phase = λ t. if t == 108 then testing else outside;
}

given-Two : Two 8 108 100 testing outside 1 0 given
given-Two = record {
  queue = record { current = refl; ready = alone_ready; task = omega arith; out = refl };
  first = refl;
  second = refl;
  value = refl;
  holder = refl;
}

lock_given_twice_example :
    (b : State) × Reach anywhere 5 8 three given b
    × (inside (b.phase 100) ≡ true)
    × (inside (b.phase 108) ≡ true)
lock_given_twice_example =
    lock_given_twice 5 8 three 100 108 0 given (omega arith) refl refl (omega arith) (omega arith)
      (omega arith) given-Two refl
