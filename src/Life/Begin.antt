-- ===== src/Life/Begin.antt =====
-- `task_init`: the lists are empty, no tid is in use, and the main task comes into being and runs.
use mathlib.Core.Path.{subst}
use lutf.Base.{
  ℕ, ◌+◌, ◌*◌, ◌<◌, ◌≤◌, ◌≡◌, refl, ◌==◌, ltb, true, false, List, [], ◌∷◌, ◌∈◌, length, ok,
  if◌then◌else◌, arith, ap, sym, ◌∙◌, Returns, returns, Returns-eq, bind, mono,
}
use lutf.Base.Int.{pos, to_int16, inc}
use lutf.Bitmap.Bits.{bit, IsBitmap}
use lutf.Bitmap.Scan.{FirstClear}
use lutf.Life.{main_name, task_init, make_main_task, join_all}
use lutf.Life.Made.{zeroed, main_struct, init_task_main-Made}
use lutf.Life.Parted.{Lists}
use lutf.Life.World.{World, Sound, HasTid}
use lutf.Lists.{Ptr, Links, list_append, elem_find}
use lutf.Lists.Chain.{IsList}
use lutf.Lists.Write.{list_init-IsList}
use lutf.Store.{Store, Task, tid_lock, task_ready_list, task_all_list, task_pool_list, all_list_tag}
use lutf.Store.Access.{malloc-eq}
use lutf.Sync.Acquire.{free_lock}
use lutf.Tasks.Queue.{IsTask}
use lutf.Tids.{tid_bytes}
use lutf.Life.Empty.{laid, NoTids, tid_pool_init-NoTids, empty-frame, join_main}

-- The main task, at `t`, runs; it is all that there is, with the first tid.
pub record Begun (t stack : Ptr) (s : Store) : Type 0 where
  pub lists : Lists s.links [] (t ∷ []) []
  pub current : s.current_task ≡ t
  pub main : s.main_task ≡ t
  pub free : s.lock tid_lock ≡ free_lock
  pub bitmap : IsBitmap s.tid_bitmap
  pub size : tid_bytes ≤ length s.tid_bitmap.bits
  pub bits : (j : ℕ) → j < tid_bytes * 8 → bit s.tid_bitmap.bits j ≡ (j == 0)
  pub start : s.tid_start ≡ 1
  pub count : s.task_all_nums ≡ pos 1
  pub task : s.task t ≡ main_struct main_name (pos 3) (pos 1) stack

join_all-joined :
    (rounds : ℕ) (y : Store) (t : Ptr) (m m' : Links)
    → y.links ≡ m
    → elem_find rounds task_all_list (all_list_tag t) m ≡ ok false m
    → list_append task_all_list (all_list_tag t) m ≡ ok tt m'
    → join_all rounds t y ≡ ok tt (record y { links = m'; task_all_nums = inc y.task_all_nums })
unfolding join_all
join_all-joined rounds y t m m' same find append =
    subst
      (λ (x : Store).
        join_all rounds t x ≡ ok tt (record y { links = m'; task_all_nums = inc y.task_all_nums }))
      (sym (ap (λ l. record y { links = l }) same)) (rw (find, append) refl)

only_first :
    (bits : List ℕ) (x : Store) (j : ℕ)
    → j < tid_bytes * 8
    → bit x.tid_bitmap.bits j ≡ (if ltb j (tid_bytes * 8) then false else bit bits j)
    → (if 0 == j then true else bit x.tid_bitmap.bits j) ≡ (j == 0)
only_first bits x j small e = ground arith

make_main_task-Begun :
    (rounds : ℕ) (x₀ x : Store) (bits : List ℕ) (t stack : Ptr) (more : List ℕ)
    → NoTids x₀ bits x
    → tid_bytes ≤ length bits
    → IsList x.links task_ready_list []
    → IsList x.links task_all_list []
    → IsList x.links task_pool_list []
    → x.supply ≡ t ∷ stack ∷ more
    → x.task_all_nums ≡ pos 0
    → IsTask t
    → 0 < rounds
    → Returns (λ _. Begun t stack) (make_main_task rounds x)
unfolding make_main_task join_all
make_main_task-Begun rounds x₀ x bits t stack more none_used size ready all pool supply count task
      lt =
    let first : FirstClear x.tid_bitmap 0 = record {
      clear = none_used.clear.bits 0;
      used = λ j lt. absurd (omega (arith, lt));
      within = omega (arith, none_used.clear.same_len);
    } in
    let (m', find, append, lists) =
      join_main rounds x.links t ready all pool none_used.nobody task lt in
    rw (malloc-eq x t (stack ∷ more) supply) (
      bind
        (init_task_main-Made rounds (record x { supply = stack ∷ more; main_task = t }) t main_name
          (pos 3) 0 stack more task (omega arith) none_used.clear.valid first refl refl
          none_used.free none_used.nobody)
        λ _ s₁ made.
          let links : s₁.links ≡ zeroed t x.links = ap (λ (y : Store). y.links) made.rest in
          rw (join_all-joined rounds s₁ t (zeroed t x.links) m' links find append) (
            returns (record {
              lists = lists;
              current = ap (λ (y : Store). y.current_task) made.rest;
              main = ap (λ (y : Store). y.main_task) made.rest;
              free = made.locks tid_lock ∙ none_used.free;
              bitmap = made.bits.valid;
              size = omega (arith, made.bits.same_size, none_used.clear.same_size, size);
              bits =
                  λ j small. made.bits.bits j ∙ only_first bits x j small (none_used.clear.bits j);
              start = ap (λ (y : Store). y.tid_start) made.rest ∙ none_used.start;
              count = ap inc (ap (λ (y : Store). y.task_all_nums) made.rest ∙ count);
              task =
                  made.own
                  ∙ ap (λ a. main_struct main_name (pos 3) (to_int16 (0 + a)) stack)
                      none_used.start;
            })))

-- the world of the main task alone
abbrev pub alone : Store → Ptr → World
alone s t = record { store = s; ready = []; all = t ∷ []; pool = [] }

Begun-Sound : {t stack : Ptr} {s : Store} → IsTask t → Begun t stack s → Sound (alone s t)
Begun-Sound {t} {stack} {s} task b = record {
  lists = b.lists;
  distinct = ground arith;
  place = subst IsTask (sym b.current) task;
  runs = refl;
  known = ground (arith, b.current);
  ready_known = λ a i. absurd (ground (arith, i));
  unpooled = λ a i. refl;
  free = b.free;
  bitmap = b.bitmap;
  count = b.count;
  num = λ _. 0;
  numbered = record {
    each = λ a i.
        subst (λ a. HasTid s a 0) (sym (only a i))
          (record {
            tid = ap (λ (r : Task). r.tid) b.task ∙ zero_plus s.tid_start b.start;
            small = omega (arith, b.start);
            inside = omega (arith, b.size);
            used = b.bits 0 (omega arith) ∙ refl;
          });
    unique = λ a c i j _. only a i ∙ sym (only c j);
  };
}
  where
    zero_plus : (n : ℕ) → n ≡ 1 → pos 1 ≡ pos (0 + n)
    zero_plus n e = ground (arith, e)

    only : (a : Ptr) → a ∈ (t ∷ []) → a ≡ t
    only a i = ground (arith, i)

-- `task_init`, where `malloc` gives memory for a structure and a stack: the list of all tasks has the main
-- task, which runs, alone, the lists of the ready tasks and of the pool are empty, the lock of the tids is
-- free, only the first bit of the bitmap is set, and this is a memory in which tasks can live.
pub task_init-Begun :
    (rounds : ℕ) (bits : List ℕ) (s : Store) (t stack : Ptr) (more : List ℕ)
    → IsBitmap (laid bits)
    → s.supply ≡ t ∷ stack ∷ more
    → IsTask t
    → 0 < rounds
    → Returns (λ _ s'. Begun t stack s' × Sound (alone s' t)) (task_init rounds bits s)
unfolding task_init
task_init-Begun rounds bits s t stack more valid supply task lt =
    let (_, m₁, e₁, (ready₁, same₁)) =
      Returns-eq (list_init-IsList s.links task_ready_list (omega arith)) in
    let (_, m₂, e₂, (all₂, same₂)) = Returns-eq (list_init-IsList m₁ task_all_list (omega arith)) in
    let (_, m₃, e₃, (pool₃, same₃)) =
      Returns-eq (list_init-IsList m₂ task_pool_list (omega arith)) in
    let ready₂ = empty-frame task_ready_list task_all_list ready₁ same₂ (omega arith) in
    let ready₃ = empty-frame task_ready_list task_pool_list ready₂ same₃ (omega arith) in
    let all₃ = empty-frame task_all_list task_pool_list all₂ same₃ (omega arith) in
    let y = record s { links = m₃; task_all_nums = pos 0 } in
    rw (e₁, e₂, e₃)
      (bind (tid_pool_init-NoTids y bits valid) λ _ x none_used.
        mono
          (make_main_task-Begun rounds y x bits t stack more none_used (omega (arith, valid.holds))
            (empty-frame task_ready_list tid_lock ready₃ none_used.spared (omega arith))
            (empty-frame task_all_list tid_lock all₃ none_used.spared (omega arith))
            (empty-frame task_pool_list tid_lock pool₃ none_used.spared (omega arith))
            (none_used.supply ∙ supply) none_used.count task lt)
          λ _ s' b. (b, Begun-Sound task b))
