-- ===== src/Life/Start.antt =====
-- `task_start` with an empty pool: a task comes into being, ready to run.
use mathlib.Core.Path.{subst}
use lutf.Base.{
  not, Cmd, assert, pure, ◌>>=◌, ◌>>◌, ℕ, ◌+◌, ◌<◌, ◌≡◌, refl, ◌≢◌, ◌==◌, Bool, true, false,
  if◌then◌else◌, List, [], ◌∷◌, ◌++◌, arith, ok, Returns, returns, bind, sym, ◌∙◌, ap, length, ◌∉◌,
}
use lutf.Base.Int.{ℤ, to_int16, inc}
use lutf.Bitmap.Bits.{bit, IsBitmap}
use lutf.Bitmap.Scan.{FirstClear}
use lutf.Bitmap.Update.{HasBits}
use lutf.Life.{task_stack_size, take_struct, task_start, join_all}
use lutf.Life.Joined.{IsAll, Joined, all_tags, zeroed-Joined}
use lutf.Life.Filled.{Made}
use lutf.Life.Made.{new_task, own_nodes, zeroed, zeroed-same, init_task-Made}
use lutf.Life.Wrote.{Wrote, Wrote-none}
use lutf.Lists.{Ptr, Links, list_append, elem_find}
use lutf.Lists.Chain.{IsList, nodes}
use lutf.Lists.Read.{list_empty-is_nil}
use lutf.Store.{
  Store, Task, task_pool_list, task_ready_list, task_all_list, general_tag, all_list_tag,
}
use lutf.Store.Access.{on_links, malloc-eq, interrupt_disable, interrupt_enable}
use lutf.Tasks.Queue.{IsTask, IsReady, tags}
use lutf.Tids.Allocate.{Idle}
use lutf.Life.Entry.{first_context, task_create-Wrote}

-- the end of `task_start`
abbrev join_both : ℕ → Ptr → Cmd Store Ptr
join_both rounds t = do
  found ← on_links (elem_find rounds task_ready_list (general_tag t))
  assert (not found)
  on_links (list_append task_ready_list (general_tag t))
  join_all rounds t
  interrupt_enable
  pure t

abbrev with_both : Store → Links → Store
with_both y m = record y { links = m; task_all_nums = inc y.task_all_nums; unmasked = true }

join_both-Joined :
    (rounds : ℕ) (y : Store) (t : Ptr) (m : Links) (ts us : List Ptr)
    → y.links ≡ m
    → (j : Joined rounds t m ts us) → join_both rounds t y ≡ ok t (with_both y j.m₂)
unfolding join_all interrupt_enable
join_both-Joined rounds y t m ts us same j =
    subst (λ (x : Store). join_both rounds t x ≡ ok t (with_both y j.m₂))
      (sym (ap (λ l. record y { links = l }) same))
      (rw (j.not_ready, j.append, j.not_known, j.append_all) refl)

-- What `task_start` needs where nothing fails: an empty pool, memory for a structure and a stack, and a
-- tid that is not in use.
pub record CanStart (s : Store) (rounds : ℕ) (t : Ptr) (n : ℕ) (stack : Ptr) (more : List ℕ)
    (ts us : List Ptr) : Type 0 where
  pub pool : IsList s.links task_pool_list []
  pub supply : s.supply ≡ t ∷ stack ∷ more
  pub place : IsTask t
  pub other : t ≢ s.main_task
  pub idle : Idle s
  pub bitmap : IsBitmap s.tid_bitmap
  pub first : FirstClear s.tid_bitmap n
  pub ready : IsReady s.links ts
  pub all : IsAll s.links us
  pub not_ready : t ∉ ts
  pub not_known : t ∉ us
  pub few_ready : length ts < rounds
  pub few : length us < rounds

-- The task `r` has come into being at `t`.
pub record Started (s : Store) (t : Ptr) (r : Task) (f : ℕ → Bool) (ts us : List Ptr) (s' : Store)
    : Type 0 where
  pub own : s'.task t ≡ r
  pub others : (p : Ptr) → p ≢ t → s'.task p ≡ s.task p
  pub ready : IsReady s'.links (ts ++ (t ∷ []))
  pub all : IsAll s'.links (us ++ (t ∷ []))
  pub count : s'.task_all_nums ≡ inc s.task_all_nums
  pub bits : HasBits s.tid_bitmap f s'.tid_bitmap
  pub locks : (q : Ptr) → s'.lock q ≡ s.lock q
  pub current : s'.current_task ≡ s.current_task
  pub main : s'.main_task ≡ s.main_task
  pub start : s'.tid_start ≡ s.tid_start
  pub spared :
      (p : Ptr)
      → p ∉ own_nodes t
      → p ∉ (general_tag t ∷ nodes task_ready_list (tags ts))
      → p ∉ (all_list_tag t ∷ nodes task_all_list (all_tags us))
      → (s'.links.next p ≡ s.links.next p) × (s'.links.prev p ≡ s.links.prev p)

both-Started :
    (s s₁ s₂ : Store) (t : Ptr) (r : Task) (f : ℕ → Bool) (supply more : List ℕ) (ts us : List Ptr)
    (entrance function func_arg : ℕ) {rounds : ℕ}
    → (j : Joined rounds t (zeroed t s.links) ts us)
    → Made (record s { links = zeroed t s.links; supply = supply; unmasked = false }) t r f more s₁
    → Wrote s₁ t
        (record (s₁.task t) {
          context = first_context entrance (s₁.task t).task_stack s₁.cpu.segments function func_arg;
        })
        s₂
    → Started s t
        (record r {
          context = first_context entrance r.task_stack s.cpu.segments function func_arg;
        })
        f
        ts
        us
        (with_both s₂ j.m₂)
both-Started s s₁ s₂ t r f supply more ts us entrance function func_arg j made w = record {
  own =
      w.own
      ∙ ap
          (λ (q : Task). record q {
            context = first_context entrance q.task_stack s₁.cpu.segments function func_arg;
          })
          made.own
      ∙ ap
          (λ (x : Store). record r {
            context = first_context entrance r.task_stack x.cpu.segments function func_arg;
          })
          made.rest;
  others = λ p ne. w.others p ne ∙ made.others p ne;
  ready = j.ready;
  all = j.all;
  count =
      ap inc (
        ap (λ (x : Store). x.task_all_nums) w.rest ∙ ap (λ (x : Store). x.task_all_nums) made.rest);
  bits =
      subst (λ b. HasBits s.tid_bitmap f b) (sym (ap (λ (x : Store). x.tid_bitmap) w.rest))
        made.bits;
  locks = λ q. ap (λ (x : Store). x.lock q) w.rest ∙ made.locks q;
  current =
      ap (λ (x : Store). x.current_task) w.rest ∙ ap (λ (x : Store). x.current_task) made.rest;
  main = ap (λ (x : Store). x.main_task) w.rest ∙ ap (λ (x : Store). x.main_task) made.rest;
  start = ap (λ (x : Store). x.tid_start) w.rest ∙ ap (λ (x : Store). x.tid_start) made.rest;
  spared = λ p own out out'.
      let same = zeroed-same t s.links p own in
      ((j.spared p out out').0 ∙ same.0, (j.spared p out out').1 ∙ same.1);
}

module _ (rounds entrance : ℕ) (name : List ℕ) (prio : ℤ) (function func_arg : ℕ) where
  -- `task_start` with an empty pool, a name that fits, memory and a free tid returns a new task with
  -- the first free tid: it is ready, last of the ready tasks and of all tasks, and begins at
  -- `task_entrance` with its function on a stack of its own. No other task is written, the tasks are
  -- one more, and the running task goes on.
  pub task_start-Started :
      (s : Store) (t : Ptr) (n : ℕ) (stack : Ptr) (more : List ℕ) (ts us : List Ptr)
      → CanStart s rounds t n stack more ts us
      → length name < 32
      → Returns
          (λ p s'.
            (p ≡ t)
            × Started s t
                (record (new_task name prio (to_int16 (n + s.tid_start)) stack) {
                  context =
                      first_context entrance
                        (stack + task_stack_size)
                        s.cpu.segments
                        function
                        func_arg;
                })
                (λ j. if n == j then true else bit s.tid_bitmap.bits j)
                ts
                us
                s')
          (task_start rounds entrance name prio function func_arg s)
  unfolding task_start take_struct interrupt_disable
  task_start-Started s t n stack more ts us can short =
      let s₀ : Store = record s { unmasked = false; supply = stack ∷ more } in
      let idle : Idle s₀ = record {
        free = can.idle.free;
        nobody = can.idle.nobody;
        running = can.idle.running;
      } in
      rw
        (
          list_empty-is_nil [] can.pool,
          malloc-eq (record s { unmasked = false }) t (stack ∷ more) can.supply,
        )
        (bind
          (init_task-Made rounds s₀ t name prio n stack more can.place short can.bitmap can.first
            refl can.other idle)
          λ _ s₁ made.
            bind
              (task_create-Wrote entrance function func_arg (omega (arith, can.place))
                (Wrote-none s₁ t))
              λ _ s₂ w.
                let j =
                  zeroed-Joined rounds t s.links ts us can.ready can.all can.place can.not_ready
                    can.not_known can.few_ready can.few in
                let links : s₂.links ≡ zeroed t s.links =
                  ap (λ (x : Store). x.links) w.rest ∙ ap (λ (x : Store). x.links) made.rest in
                rw (join_both-Joined rounds s₂ t (zeroed t s.links) ts us links j) (
                  returns (
                    refl,
                    both-Started s s₁ s₂ t _ _ (stack ∷ more) more ts us entrance function func_arg
                        j made w,
                  )))
