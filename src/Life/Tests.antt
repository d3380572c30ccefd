-- ===== src/Life/Tests.antt =====
-- The theorems about the life of tasks at small stores.
use lutf.Base.{refl, ◌≡◌, ◌==◌, true, if◌then◌else◌, [], ◌∷◌, arith, Returns}
use lutf.Base.Bytes.{test_bit, holds_below, holds_below_at}
use lutf.Bitmap.Bits.{bit}
use lutf.Bitmap.Scan.{FirstClear}
use lutf.Life.Joined.{IsAll}
use lutf.Life.Made.{new_task}
use lutf.Life.Entry.{first_context}
use lutf.Life.Start.{CanStart, Started, task_start-Started}
use lutf.Tasks.Queue.{IsQueue, IsReady}
use lutf.Base.Int.{pos}
use lutf.Lists.{Links}
use lutf.Life.Exit.{CanExit, Exited, task_exit-Exited}
use lutf.Tasks.Park.{HandsOver}
use lutf.Life.{task_exit, task_start}
use lutf.Samples.{look, a_store, a_task}
use lutf.Store.{Store, task_running}
use lutf.Sync.Acquire.{free_lock}

-- the tasks 100 and 104 are ready, and they and 108 are all; the pool is empty
abbrev pub start_links : Links
start_links = record {
  next = look (
      (2, 101)
      ∷ (101, 105)
      ∷ (105, 3)
      ∷ (3, 0)
      ∷ (4, 102)
      ∷ (102, 106)
      ∷ (106, 110)
      ∷ (110, 5)
      ∷ (5, 0)
      ∷ (6, 7)
      ∷ (7, 0)
      ∷ (8, 9)
      ∷ (9, 0)
      ∷ []);
  prev = look (
      (2, 0)
      ∷ (101, 2)
      ∷ (105, 101)
      ∷ (3, 105)
      ∷ (4, 0)
      ∷ (102, 4)
      ∷ (106, 102)
      ∷ (110, 106)
      ∷ (5, 110)
      ∷ (6, 0)
      ∷ (7, 6)
      ∷ (8, 0)
      ∷ (9, 8)
      ∷ []);
}

abbrev pub starting : Store
starting = record (a_store start_links free_lock) {
  supply = 116 ∷ 5000 ∷ [];
  task = λ p. a_task task_running (if p == 108 then 3 else p);
}

low_row : holds_below 4 (bit starting.tid_bitmap.bits) ≡ true
unfolding holds_below test_bit
low_row = refl

four_clear : FirstClear starting.tid_bitmap 4
unfolding test_bit
four_clear = record {
  clear = refl;
  used = λ j h. holds_below_at 4 (bit starting.tid_bitmap.bits) j low_row h;
  within = omega arith;
}

pub no_waiter : IsQueue start_links 8 []
no_waiter = record {
  list = record {
    chain = omega arith;
    distinct = ground arith;
    not_null = refl;
    head_prev = refl;
    tail_next = refl;
  };
  tasks = tt;
  place = omega arith;
}

pub two_ready : IsReady start_links (100 ∷ 104 ∷ [])
two_ready = record {
  list = record {
    chain = omega arith;
    distinct = ground arith;
    not_null = refl;
    head_prev = refl;
    tail_next = refl;
  };
  tasks = omega arith;
  place = omega arith;
}

pub three_tasks : IsAll start_links (100 ∷ 104 ∷ 108 ∷ [])
three_tasks = record {
  list = record {
    chain = omega arith;
    distinct = ground arith;
    not_null = refl;
    head_prev = refl;
    tail_next = refl;
  };
  tasks = omega arith;
}

starting-CanStart : CanStart starting 5 116 4 5000 [] (100 ∷ 104 ∷ []) (100 ∷ 104 ∷ 108 ∷ [])
starting-CanStart = record {
  pool = record {
    chain = omega arith;
    distinct = ground arith;
    not_null = refl;
    head_prev = refl;
    tail_next = refl;
  };
  supply = refl;
  place = omega arith;
  other = omega arith;
  idle = record { free = refl; nobody = no_waiter; running = omega arith };
  bitmap = omega arith;
  first = four_clear;
  ready = two_ready;
  all = three_tasks;
  not_ready = refl;
  not_known = refl;
  few_ready = omega arith;
  few = omega arith;
}

task_start-Started_example :
    Returns
      (λ p s'.
        (p ≡ 116)
        × Started starting 116
            (record (new_task (65 ∷ []) (pos 31) (pos 5) 5000) {
              context = first_context 7 9096 0 11 12;
            })
            (λ j. if 4 == j then true else bit starting.tid_bitmap.bits j)
            (100 ∷ 104 ∷ [])
            (100 ∷ 104 ∷ 108 ∷ [])
            s')
      (task_start 5 7 (65 ∷ []) (pos 31) 11 12 starting)
task_start-Started_example =
    task_start-Started 5 7 (65 ∷ []) (pos 31) 11 12 starting 116 4 5000 [] (100 ∷ 104 ∷ [])
      (100 ∷ 104 ∷ 108 ∷ []) starting-CanStart (omega arith)

-- 108 runs and ends.
starting-CanExit : CanExit starting 5 100 (104 ∷ []) (100 ∷ 104 ∷ []) [] [] 2
starting-CanExit = record {
  lists = record {
    ready = two_ready;
    all = three_tasks;
    pool = record { list = starting-CanStart.pool; tasks = tt };
    nobody = no_waiter;
  };
  place = omega arith;
  running = refl;
  unpooled = refl;
  other = omega arith;
  free = refl;
  bitmap = omega arith;
  tid = refl;
  inside = omega arith;
  small = omega arith;
  few = omega arith;
}

task_exit-Exited_example :
    HandsOver (Exited starting 100 (104 ∷ []) (100 ∷ 104 ∷ []) [] [] 2) (task_exit 5 108 starting)
task_exit-Exited_example =
    task_exit-Exited 5 starting 100 (104 ∷ []) (100 ∷ 104 ∷ []) [] [] 2 starting-CanExit
