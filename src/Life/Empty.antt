-- ===== src/Life/Empty.antt =====
-- `task_init` before it makes the main task: the lists are empty, and no tid is in use.
use lutf.Base.{
  ℕ, ◌+◌, ◌*◌, ◌<◌, ◌≤◌, ◌⊎◌, ◌≡◌, ltb, false, List, [], ◌∷◌, ok, if◌then◌else◌, arith, ap, Returns,
  Returns-eq, mono,
}
use lutf.Bitmap.{Bitmap}
use lutf.Bitmap.Bits.{bit, IsBitmap}
use lutf.Bitmap.Update.{HasBits, bitmap_init-clear}
use lutf.Life.Made.{own_nodes, zeroed, zeroed-same}
use lutf.Life.Parted.{Lists}
use lutf.Lists.{Ptr, Links, list_append, elem_find}
use lutf.Lists.Chain.{IsList, IsList-frame, nodes, SameOutside}
use lutf.Lists.Read.{elem_find-has}
use lutf.Lists.Write.{list_append-snoc}
use lutf.Store.{Store, tid_lock, task_ready_list, task_all_list, task_pool_list, all_list_tag}
use lutf.Sync.Acquire.{free_lock}
use lutf.Sync.Init.{lock_init-free}
use lutf.Tasks.Queue.{IsTask, IsQueue}
use lutf.Tids.{tid_bytes, tid_pool_init}

-- the bitmap of the tids before it is cleared
abbrev pub laid : List ℕ → Bitmap
laid bits = record { btmp_bytes_len = tid_bytes; bits = bits }

-- no tid is in use, and the lock of the tids is free
pub record NoTids (x : Store) (bits : List ℕ) (x' : Store) : Type 0 where
  pub free : x'.lock tid_lock ≡ free_lock
  pub nobody : IsQueue x'.links tid_lock []
  pub spared : SameOutside (nodes tid_lock []) x.links x'.links
  pub clear :
      HasBits (laid bits) (λ j. if ltb j (tid_bytes * 8) then false else bit bits j) x'.tid_bitmap
  pub start : x'.tid_start ≡ 1
  pub supply : x'.supply ≡ x.supply
  pub count : x'.task_all_nums ≡ x.task_all_nums

pub tid_pool_init-NoTids :
    (x : Store) (bits : List ℕ)
    → IsBitmap (laid bits)
    → Returns (λ _. NoTids x bits) (tid_pool_init bits x)
unfolding tid_pool_init
tid_pool_init-NoTids x bits valid =
    let (_, b, eq, clear) = Returns-eq (bitmap_init-clear (laid bits) valid) in
    rw eq (
      mono
        (lock_init-free (record x { tid_start = 1; tid_bitmap = b }) tid_lock (omega arith)
          (omega arith))
        λ _ x' (free, nobody, spared, _, rest). record {
          free = free;
          nobody = nobody;
          spared = spared;
          clear = rw (ap (λ (y : Store). y.tid_bitmap) rest) clear;
          start = ap (λ (y : Store). y.tid_start) rest;
          supply = ap (λ (y : Store). y.supply) rest;
          count = ap (λ (y : Store). y.task_all_nums) rest;
        })

-- an empty list keeps clear of others
pub empty-frame :
    {m m' : Links} (l k : Ptr)
    → IsList m l []
    → SameOutside (nodes k []) m m'
    → (l + 1 < k) ⊎ (k + 1 < l)
    → IsList m' l []
empty-frame l k is same away = IsList-frame (nodes k []) is same λ p i. ground arith

zeroed_frame : {m : Links} (l t : Ptr) → IsList m l [] → l < 99 → 100 ≤ t → IsList (zeroed t m) l []
zeroed_frame {m} l t is small place =
    IsList-frame (own_nodes t) is (zeroed-same t m) λ p i. ground arith

-- the main task joins the list of all tasks
pub join_main :
    (rounds : ℕ) (m : Links) (t : Ptr)
    → IsList m task_ready_list []
    → IsList m task_all_list []
    → IsList m task_pool_list []
    → IsQueue m tid_lock []
    → IsTask t
    → 0 < rounds
    → (m' : Links) × (elem_find rounds task_all_list (all_list_tag t) (zeroed t m)
        ≡ ok false (zeroed t m))
      × (list_append task_all_list (all_list_tag t) (zeroed t m) ≡ ok tt m')
      × Lists m' [] (t ∷ []) []
join_main rounds m t ready all pool nobody task lt =
    let all₁ = zeroed_frame task_all_list t all (omega arith) task.0 in
    let (_, m', eq, (is, same)) =
      Returns-eq (list_append-snoc (all_list_tag t) all₁ (ground (arith, task.0)) (omega arith)) in
    let ns = all_list_tag t ∷ nodes task_all_list [] in
    let kept : (l : Ptr) → IsList m l [] → l < 99 → (l + 1 < 4) ⊎ (5 < l) → IsList m' l [] =
      λ l h small away.
        IsList-frame ns (zeroed_frame l t h small task.0) same (λ p i. ground (arith, task.0)) in
    (
      m',
      elem_find-has rounds (all_list_tag t) all₁ lt,
      eq,
      record {
        ready = record {
          list = kept task_ready_list ready (omega arith) (omega arith);
          tasks = tt;
          place = omega arith;
        };
        all = record { list = is; tasks = (task, tt) };
        pool = record { list = kept task_pool_list pool (omega arith) (omega arith); tasks = tt };
        nobody = record {
          list = kept tid_lock nobody.list (omega arith) (omega arith);
          tasks = tt;
          place = omega arith;
        };
      },
    )
