-- ===== src/Life/World/Tests.antt =====
-- The theorems about the life of tasks at a small memory.
use mathlib.Core.Path.{subst}
use lutf.Base.{
  spin, switched, zero, suc, refl, ◌≡◌, ◌≢◌, ◌==◌, ℕ, [], ◌∷◌, List, true, arith, if◌then◌else◌, ok,
  Returns, Returns-eq, length, Bool-cases, inl, inr, ==_iff, sym, ◌∈◌,
}
use lutf.Base.Bytes.{test_bit, holds_below, holds_below_at}
use lutf.Base.Int.{pos}
use lutf.Bitmap.Bits.{bit}
use lutf.Bitmap.Scan.{FirstClear}
use lutf.Life.Start.{task_start-Started, CanStart}
use lutf.Life.{task_start, task_init, task_exit}
use lutf.Life.Exit.{CanExit, task_exit-Exited}
use lutf.Life.World.Buried.{start_after_end}
use lutf.Tasks.Park.{HandsOver-eq}
use lutf.Bitmap.Bits.{IsBytes, IsBitmap}
use lutf.Tids.{tid_bytes}
use lutf.Life.Tests.{start_links, two_ready, three_tasks, no_waiter}
use lutf.Life.World.{World, Sound, HasTid, starts, Life, born, lives, ends}
use lutf.Life.World.Alive.{Life-Sound, tids_unique}
use lutf.Life.Empty.{laid}
use lutf.Life.Begin.{Begun, alone, task_init-Begun}
use lutf.Lists.{Ptr}
use lutf.Lists.Chain.{IsList}
use lutf.Samples.{a_store, a_task}
use lutf.Store.{Store, task_running}
use lutf.Sync.Acquire.{free_lock}

-- the tasks 100, 104 and 108 have the tids 1, 2 and 3; 108 runs, and the others are ready
abbrev small : Store
small = record (a_store start_links free_lock) {
  supply = 116 ∷ 5000 ∷ [];
  task = λ p. a_task task_running (if p == 100 then 1 else if p == 104 then 2 else 3);
  task_all_nums = pos 3;
  tid_bitmap = record { btmp_bytes_len = 1; bits = 7 ∷ [] };
}

abbrev three : World
three = record { store = small; ready = 100 ∷ 104 ∷ []; all = 100 ∷ 104 ∷ 108 ∷ []; pool = [] }

low_row : holds_below 3 (bit small.tid_bitmap.bits) ≡ true
unfolding holds_below test_bit
low_row = refl

three_clear : FirstClear small.tid_bitmap 3
unfolding test_bit
three_clear = record {
  clear = refl;
  used = λ j h. holds_below_at 3 (bit small.tid_bitmap.bits) j low_row h;
  within = omega arith;
}

no_pool : IsList start_links 6 []
no_pool = record {
  chain = omega arith;
  distinct = ground arith;
  not_null = refl;
  head_prev = refl;
  tail_next = refl;
}

abbrev place : Ptr → ℕ
place p = if p == 100 then 0 else if p == 104 then 1 else 2

three-HasTid : (t : Ptr) → t ∈ three.all → HasTid small t (place t)
unfolding test_bit
three-HasTid t i = elim (Bool-cases (t == 100)) [
  | inl a ↦
      subst (λ t. HasTid small t (place t)) (sym ((==_iff t 100).0 a))
        (record { tid = refl; small = omega arith; inside = omega arith; used = refl })
  | inr a ↦ elim (Bool-cases (t == 104)) [
    | inl b ↦
        subst (λ t. HasTid small t (place t)) (sym ((==_iff t 104).0 b))
          (record { tid = refl; small = omega arith; inside = omega arith; used = refl })
    | inr b ↦
        subst (λ t. HasTid small t (place t)) {x = 108} (ground (arith, i, a, b))
          (record { tid = refl; small = omega arith; inside = omega arith; used = refl })
  ]
]

three-Sound : Sound three
unfolding test_bit
three-Sound = record {
  lists = record {
    ready = two_ready;
    all = three_tasks;
    pool = record { list = no_pool; tasks = tt };
    nobody = no_waiter;
  };
  distinct = ground arith;
  place = omega arith;
  runs = refl;
  known = refl;
  ready_known = λ t i. ground arith;
  unpooled = λ t i. refl;
  free = refl;
  bitmap = omega arith;
  count = refl;
  num = place;
  numbered = record { each = three-HasTid; unique = λ t u i j e. ground arith };
}

three-CanStart : CanStart small 5 116 3 5000 [] (100 ∷ 104 ∷ []) (100 ∷ 104 ∷ 108 ∷ [])
three-CanStart = record {
  pool = no_pool;
  supply = refl;
  place = omega arith;
  other = omega arith;
  idle = record { free = refl; nobody = no_waiter; running = omega arith };
  bitmap = omega arith;
  first = three_clear;
  ready = two_ready;
  all = three_tasks;
  not_ready = refl;
  not_known = refl;
  few_ready = omega arith;
  few = omega arith;
}

started : (s : Store) × (task_start 5 7 (65 ∷ []) (pos 31) 11 12 small ≡ ok 116 s)
started =
    let (p, s, eq, (own, _)) = Returns-eq (
      task_start-Started 5 7 (65 ∷ []) (pos 31) 11 12 small 116 3 5000 [] (100 ∷ 104 ∷ [])
        (100 ∷ 104 ∷ 108 ∷ []) three-CanStart (omega arith)) in
    (s, subst (λ p. task_start 5 7 (65 ∷ []) (pos 31) 11 12 small ≡ ok p s) own eq)

abbrev four : World
four = record {
  store = started.0;
  ready = 100 ∷ 104 ∷ 116 ∷ [];
  all = 100 ∷ 104 ∷ 108 ∷ 116 ∷ [];
  pool = [];
}

three-four : Life 5 7 three four
three-four = lives born (
    starts (65 ∷ []) (pos 31) 11 12 116 3 5000 [] started.0 (omega arith) refl refl (omega arith)
      (omega arith) refl three_clear (omega arith) (omega arith) started.1 refl)

Life-Sound_example : Sound four
Life-Sound_example = Life-Sound three-Sound three-four

tids_unique_example : (four.store.task 108).tid ≢ (four.store.task 116).tid
tids_unique_example = tids_unique three-Sound three-four 108 116 refl refl (omega arith)

-- 108 ends
three-CanExit : CanExit small 5 100 (104 ∷ []) (100 ∷ 104 ∷ []) [] [] 2
three-CanExit = record {
  lists = three-Sound.lists;
  place = omega arith;
  running = refl;
  unpooled = refl;
  other = omega arith;
  free = refl;
  bitmap = omega arith;
  tid = refl;
  inside = omega arith;
  small = omega arith;
  few = omega arith;
}

ended : (s : Store) × (task_exit 5 108 small ≡ switched s)
ended =
    let (s, eq, _) =
      HandsOver-eq
        (task_exit-Exited 5 small 100 (104 ∷ []) (100 ∷ 104 ∷ []) [] [] 2 three-CanExit) in
    (s, eq)

abbrev two : World
two = record { store = ended.0; ready = 104 ∷ []; all = 100 ∷ 104 ∷ []; pool = 108 ∷ [] }

three-two : Life 5 7 three two
three-two = lives born (
    ends 100 (104 ∷ []) (100 ∷ 104 ∷ []) [] ended.0 refl refl (omega arith) (omega arith) ended.1
      refl)

start_after_end_example : (s : Store) × (task_start 5 7 (65 ∷ []) (pos 31) 8 9 two.store ≡ spin s)
start_after_end_example =
    start_after_end three-Sound refl three-two 108 refl born (65 ∷ []) (pos 31) 8 9

abbrev used : ℕ → List ℕ
used zero = []
used (suc n) = 255 ∷ used n

used-IsBytes : (n : ℕ) → IsBytes (used n)
used-IsBytes zero = tt
used-IsBytes (suc n) = (omega arith, used-IsBytes n)

length-used : (n : ℕ) → length (used n) ≡ n
length-used zero = refl
length-used (suc n) = ground (arith, length-used n)

laid-IsBitmap : IsBitmap (laid (used tid_bytes))
laid-IsBitmap = record {
  bytes = used-IsBytes tid_bytes;
  holds = omega (arith, length-used tid_bytes);
  small = omega arith;
}

task_init-Begun_example :
    Returns (λ _ s'. Begun 116 5000 s' × Sound (alone s' 116)) (task_init 5 (used tid_bytes) small)
task_init-Begun_example =
    task_init-Begun 5 (used tid_bytes) small 116 5000 [] laid-IsBitmap refl (omega arith)
      (omega arith)
