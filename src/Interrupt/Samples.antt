-- ===== src/Interrupt/Samples.antt =====
-- A task that asks to sleep, in a small memory: 108 runs, 100 and 104 are ready, the manager of the timers
-- is at 16 with no timers, and its lock is at 12.
use lutf.Base.{◌==◌, refl, if◌then◌else◌, [], ◌∷◌, arith, true}
use lutf.Interrupt.Sleeper.{Sleepy}
use lutf.Lists.{Links}
use lutf.Samples.{look, a_store, a_task}
use lutf.Store.{task_running, task_ready}
use lutf.Sync.Acquire.{free_lock}
use lutf.Timers.Wheels.{Clock}

abbrev sleepy_links : Links
sleepy_links = record {
  next = look ((2, 101) ∷ (101, 105) ∷ (105, 3) ∷ (3, 0) ∷ (12, 13) ∷ (13, 0) ∷ []);
  prev = look ((2, 0) ∷ (101, 2) ∷ (105, 101) ∷ (3, 105) ∷ (12, 0) ∷ (13, 12) ∷ []);
}

-- 108 is hooked and asks to sleep for 100 ms.
abbrev pub sleepy_clock : Clock
sleepy_clock = record {
  store = record (a_store sleepy_links free_lock) {
    supply = 700 ∷ 800 ∷ [];
    task = λ p.
        if p == 108
        then record (a_task task_running p) {
          is_hook = true;
          is_collaborative_schedule = true;
          sleep_millisecond = 100;
        }
        else a_task task_ready p;
  };
  wheel = record { next = λ p. p; prev = λ p. p };
  node = λ _. record { u_expires = 0; u_period = 0; timer_fn = 0; p_param = 0 };
  timer_manager = 16;
  lock = 12;
  u_exit_flag = 0;
  u_jiffies = 1000;
  ticks = 0;
}

pub sleepy_clock-Sleepy : Sleepy sleepy_clock [] (λ _. []) 700 (800 ∷ []) 100 (104 ∷ [])
sleepy_clock-Sleepy = record {
  wheel = record {
    place = omega arith;
    circle =
        λ k hk. record { chain = (refl, refl); distinct = ground arith; not_null = ground arith };
    apart = λ k k' hk hk' ne a i. ground arith;
    nodes = λ k hk x i. ground arith;
    within = λ k hk x i. ground arith;
  };
  supply = refl;
  behind = omega arith;
  absent = λ h hh. ground arith;
  idle = record {
    free = refl;
    nobody = record {
      list = record {
        chain = omega arith;
        distinct = ground arith;
        not_null = refl;
        head_prev = refl;
        tail_next = refl;
      };
      tasks = tt;
      place = omega arith;
    };
    not_null = ground arith;
    running = ground arith;
  };
  ready = record {
    list = record {
      chain = omega arith;
      distinct = ground arith;
      not_null = refl;
      head_prev = refl;
      tail_next = refl;
    };
    tasks = omega arith;
    place = omega arith;
  };
  not_ready = refl;
}
