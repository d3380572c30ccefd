-- ===== src/Samples.antt =====
-- Small memories for the tests: three tasks that run or are ready, and one that waits for a lock.
use lutf.Base.{ℕ, refl, ◌==◌, if◌then◌else◌, List, [], ◌∷◌, arith, false, true}
use lutf.Base.Int.{pos}
use lutf.Lists.{Links}
use lutf.Store.{Store, Task, TaskStatus, task_running, task_ready, task_blocked, Context, Lock}
use lutf.Tasks.Queue.{IsQueue, IsReady}

abbrev pub look : List (ℕ × ℕ) → ℕ → ℕ
look [] a = 0
look ((k, v) ∷ m) a = if a == k then v else look m a

-- the tasks 100 and 104 are ready; 112 waits at the lock 8
abbrev pub busy_links : Links
busy_links = record {
  next = look (
      (2, 101)
      ∷ (101, 105)
      ∷ (105, 3)
      ∷ (3, 0)
      ∷ (8, 113)
      ∷ (113, 9)
      ∷ (9, 0)
      ∷ (4, 5)
      ∷ (5, 0)
      ∷ []);
  prev = look (
      (2, 0)
      ∷ (101, 2)
      ∷ (105, 101)
      ∷ (3, 105)
      ∷ (8, 0)
      ∷ (113, 8)
      ∷ (9, 113)
      ∷ (4, 0)
      ∷ (5, 4)
      ∷ []);
}

-- no task is ready; 112 waits at the lock 8
abbrev pub idle_links : Links
idle_links = record {
  next = look ((2, 3) ∷ (3, 0) ∷ (8, 113) ∷ (113, 9) ∷ (9, 0) ∷ []);
  prev = look ((2, 0) ∷ (3, 2) ∷ (8, 0) ∷ (113, 8) ∷ (9, 113) ∷ []);
}

-- no task is ready or waits
abbrev pub quiet_links : Links
quiet_links = record {
  next = look ((2, 3) ∷ (3, 0) ∷ (8, 9) ∷ (9, 0) ∷ []);
  prev = look ((2, 0) ∷ (3, 2) ∷ (8, 0) ∷ (9, 8) ∷ []);
}

abbrev pub registers : ℕ → Context
registers n = record { rip = n; rsp = n; rbp = n; rdi = n; rsi = n; segments = 0; rest = 0 }

abbrev pub a_task : TaskStatus → ℕ → Task
a_task status n = record {
  task_stack = 0;
  stack_min_addr = 0;
  context = registers n;
  tid = pos n;
  status = status;
  name = [];
  priority = 3;
  ticks = 0;
  elapsed_ticks = 0;
  stack_magic = 0x19991120;
  sleep_millisecond = 0;
  first = false;
  is_hook = false;
  is_collaborative_schedule = false;
}

-- the task 108 runs
abbrev pub a_store : Links → Lock → Store
a_store m l = record {
  links = m;
  task = λ p.
      if p == 112
      then a_task task_blocked p
      else if p == 108
      then a_task task_running p
      else a_task task_ready p;
  lock = λ p. l;
  main_task = 100;
  current_task = 108;
  task_all_nums = pos 4;
  tid_start = 1;
  tid_bitmap = record { btmp_bytes_len = 1; bits = 15 ∷ [] };
  cpu = registers 7;
  supply = [];
  unmasked = true;
}

pub busy_ready : IsReady busy_links (100 ∷ 104 ∷ [])
busy_ready = record {
  list = record {
    chain = omega arith;
    distinct = ground arith;
    not_null = refl;
    head_prev = refl;
    tail_next = refl;
  };
  tasks = omega arith;
  place = omega arith;
}

pub busy_waiting : IsQueue busy_links 8 (112 ∷ [])
busy_waiting = record {
  list = record {
    chain = omega arith;
    distinct = ground arith;
    not_null = refl;
    head_prev = refl;
    tail_next = refl;
  };
  tasks = omega arith;
  place = omega arith;
}

pub idle_ready : IsReady idle_links []
idle_ready = record {
  list = record {
    chain = omega arith;
    distinct = ground arith;
    not_null = refl;
    head_prev = refl;
    tail_next = refl;
  };
  tasks = tt;
  place = omega arith;
}

pub idle_waiting : IsQueue idle_links 8 (112 ∷ [])
idle_waiting = record {
  list = record {
    chain = omega arith;
    distinct = ground arith;
    not_null = refl;
    head_prev = refl;
    tail_next = refl;
  };
  tasks = omega arith;
  place = omega arith;
}

pub quiet_waiting : IsQueue quiet_links 8 []
quiet_waiting = record {
  list = record {
    chain = omega arith;
    distinct = ground arith;
    not_null = refl;
    head_prev = refl;
    tail_next = refl;
  };
  tasks = tt;
  place = omega arith;
}

pub quiet_ready : IsReady quiet_links []
quiet_ready = record {
  list = record {
    chain = omega arith;
    distinct = ground arith;
    not_null = refl;
    head_prev = refl;
    tail_next = refl;
  };
  tasks = tt;
  place = omega arith;
}

-- the task 100 is ready; nobody waits at the lock 8
abbrev pub alone_links : Links
alone_links = record {
  next = look ((2, 101) ∷ (101, 3) ∷ (3, 0) ∷ (8, 9) ∷ (9, 0) ∷ []);
  prev = look ((2, 0) ∷ (101, 2) ∷ (3, 101) ∷ (8, 0) ∷ (9, 8) ∷ []);
}

pub alone_waiting : IsQueue alone_links 8 []
alone_waiting = record {
  list = record {
    chain = omega arith;
    distinct = ground arith;
    not_null = refl;
    head_prev = refl;
    tail_next = refl;
  };
  tasks = tt;
  place = omega arith;
}

pub alone_ready : IsReady alone_links (100 ∷ [])
alone_ready = record {
  list = record {
    chain = omega arith;
    distinct = ground arith;
    not_null = refl;
    head_prev = refl;
    tail_next = refl;
  };
  tasks = omega arith;
  place = omega arith;
}
