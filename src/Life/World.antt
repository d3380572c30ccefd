-- ===== src/Life/World.antt =====
-- The life of all tasks: they start, end and are preempted, in any order, with no clock signal inside
-- `task_start` and `task_exit`.
pub mod Starts
pub mod Ends
pub mod Preempts
pub mod Alive
pub mod Buried
mod Tests
use lutf.Base.{
  ℕ, ◌+◌, ◌*◌, ◌^◌, ◌<◌, ◌≡◌, ◌≢◌, true, List, [], ◌∷◌, ◌++◌, ◌∈◌, ◌∉◌, Apart, length, ok, switched,
  Distinct, Returns, returns,
}
use lutf.Base.Int.{ℤ, pos}
use lutf.Bitmap.Bits.{bit, IsBitmap}
use lutf.Bitmap.Scan.{FirstClear}
use lutf.Life.{task_start, task_exit}
use lutf.Life.Parted.{Lists}
use lutf.Lists.{Ptr, null}
use lutf.Store.{Store, Task, tid_lock}
use lutf.Sync.Acquire.{free_lock}
use lutf.Tasks.{schedule}
use lutf.Tasks.Queue.{IsTask}

-- the memory, with the tasks that are ready, that are there, and that are in the pool, in the order
-- of the lists
pub record World : Type 0 where
  pub store : Store
  pub ready : List Ptr
  pub all : List Ptr
  pub pool : List Ptr

-- The tid of the task `t` is made from the number `n` of a bit of the bitmap that is set.
pub record HasTid (s : Store) (t : Ptr) (n : ℕ) : Type 0 where
  pub tid : (s.task t).tid ≡ pos (n + s.tid_start)
  pub small : n + s.tid_start < 2 ^ 15
  pub inside : n < length s.tid_bitmap.bits * 8
  pub used : bit s.tid_bitmap.bits n ≡ true

-- The tasks that are there have such numbers, and no two have the same.
pub record Numbered (s : Store) (us : List Ptr) (num : Ptr → ℕ) : Type 0 where
  pub each : (t : Ptr) → t ∈ us → HasTid s t (num t)
  pub unique : (t u : Ptr) → t ∈ us → u ∈ us → num t ≡ num u → t ≡ u

-- The lists are those of the memory; the running task is one of all tasks and not ready, the ready ones
-- are of all tasks, and none of these is in the pool.
pub record Sound (w : World) : Type 0 where
  pub lists : Lists w.store.links w.ready w.all w.pool
  pub distinct : Distinct w.all
  pub place : IsTask w.store.current_task
  pub runs : w.store.current_task ∉ w.ready
  pub known : w.store.current_task ∈ w.all
  pub ready_known : (t : Ptr) → t ∈ w.ready → t ∈ w.all
  pub unpooled : Apart w.all w.pool
  pub free : w.store.lock tid_lock ≡ free_lock
  pub bitmap : IsBitmap w.store.tid_bitmap
  pub count : w.store.task_all_nums ≡ pos (length w.all)
  pub num : Ptr → ℕ
  pub numbered : Numbered w.store w.all num

-- One event in the life of the tasks: the running task starts one, where `malloc` gives memory that is not in
-- use, a tid is free, and the pool is empty; it ends, if it is not the main task; or the clock comes.
pub data Event (rounds entrance : ℕ) (w w' : World) : Type 0 where
  starts :
      (name : List ℕ) (prio : ℤ) (function func_arg : ℕ) (t : Ptr) (n : ℕ) (stack : Ptr)
      (more : List ℕ) (s : Store)
      → length name < 32
      → w.pool ≡ []
      → w.store.supply ≡ t ∷ stack ∷ more
      → IsTask t
      → t ≢ w.store.main_task
      → t ∉ w.all
      → FirstClear w.store.tid_bitmap n
      → n + w.store.tid_start < 2 ^ 15
      → length w.all < rounds
      → task_start rounds entrance name prio function func_arg w.store ≡ ok t s
      → w' ≡ record w { store = s; ready = w.ready ++ (t ∷ []); all = w.all ++ (t ∷ []) }
      → Event rounds entrance w w'
  ends :
      (u : Ptr) (ts us vs : List Ptr) (s : Store)
      → w.ready ≡ u ∷ ts
      → w.all ≡ us ++ (w.store.current_task ∷ vs)
      → w.store.current_task ≢ w.store.main_task
      → length w.all < rounds
      → task_exit rounds w.store.current_task w.store ≡ switched s
      → w' ≡ record {
        store = s;
        ready = ts;
        all = us ++ vs;
        pool = w.pool ++ (w.store.current_task ∷ []);
      }
      → Event rounds entrance w w'
  clock :
      (t : Ptr) (ts : List Ptr) (s : Store)
      → w.ready ++ (w.store.current_task ∷ []) ≡ t ∷ ts
      → length w.all < rounds
      → schedule rounds w.store ≡ ok tt s
      → w' ≡ record w { store = s; ready = ts }
      → Event rounds entrance w w'

pub data Life (rounds entrance : ℕ) (w : World) : World → Type 0 where
  born : Life rounds entrance w w
  lives :
      {v v' : World}
      → Life rounds entrance w v
      → Event rounds entrance v v'
      → Life rounds entrance w v'
