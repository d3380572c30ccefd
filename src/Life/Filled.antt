-- ===== src/Life/Filled.antt =====
-- `fill_task`, the end of `init_task`: the tid, the stack and the numbers of a new task.
use mathlib.Core.Path.{subst}
use lutf.Base.{
  ℕ, ◌+◌, ◌%◌, ◌≡◌, ◌≢◌, ◌==◌, Bool, true, false, if◌then◌else◌, List, [], ◌∷◌, Returns, bind, mono,
  sym, ◌∙◌, ap,
}
use lutf.Base.Int.{ℤ, to_int16, to_uint32}
use lutf.Bitmap.Bits.{bit, IsBitmap}
use lutf.Bitmap.Scan.{FirstClear}
use lutf.Bitmap.Update.{HasBits}
use lutf.Life.{task_stack_size, fill_task}
use lutf.Life.Wrote.{Wrote, Wrote-modify, writes-Wrote}
use lutf.Lists.{Ptr, null}
use lutf.Store.{Store, Task, Lock}
use lutf.Store.Access.{malloc-eq}
use lutf.Tids.Allocate.{Idle, Marked, allocate_tid-Marked}

-- The task at `t` is `r`, the bits of the tids are `f`, and nothing else of `s` but the supply of memory
-- has changed; SIGALRM is let through.
pub record Made (s : Store) (t : Ptr) (r : Task) (f : ℕ → Bool) (more : List ℕ) (s' : Store)
    : Type 0 where
  pub own : s'.task t ≡ r
  pub others : (p : Ptr) → p ≢ t → s'.task p ≡ s.task p
  pub bits : HasBits s.tid_bitmap f s'.tid_bitmap
  pub locks : (q : Ptr) → s'.lock q ≡ s.lock q
  pub rest : s' ≡ record s {
    task = s'.task;
    tid_bitmap = s'.tid_bitmap;
    lock = s'.lock;
    supply = more;
    unmasked = true;
  }

-- a task after `fill_task`
abbrev pub filled : (r : Task) (prio tid : ℤ) (stack : Ptr) → Task
filled r prio tid stack = record r {
  tid = tid;
  stack_min_addr = stack;
  task_stack = stack + task_stack_size;
  priority = to_uint32 prio % 256;
  ticks = to_uint32 prio % 256;
  elapsed_ticks = 0;
  stack_magic = 0x19991120;
  sleep_millisecond = 0;
  is_hook = false;
  is_collaborative_schedule = false;
}

Marked-Wrote :
    {s s₃ s₄ : Store} {t : Ptr} {r : Task} {f : ℕ → Bool}
    → Wrote s t r s₃
    → Marked s₃ f s₄
    → Wrote (record s { tid_bitmap = s₄.tid_bitmap; lock = s₄.lock; unmasked = true }) t r s₄
Marked-Wrote {s} {s₄} {t} w mk =
    let tasks : s₄.task ≡ _ = ap (λ (x : Store). x.task) mk.rest in
    record {
      own = ap (λ (f : Ptr → Task). f t) tasks ∙ w.own;
      others = λ p ne. ap (λ (f : Ptr → Task). f p) tasks ∙ w.others p ne;
      rest =
          mk.rest
          ∙ ap
              (λ (x : Store). record x {
                tid_bitmap = s₄.tid_bitmap;
                lock = s₄.lock;
                unmasked = true;
              })
              w.rest
          ∙ ap
              (λ ts. record s {
                task = ts;
                tid_bitmap = s₄.tid_bitmap;
                lock = s₄.lock;
                unmasked = true;
              })
              (sym tasks);
    }

supply-Wrote :
    {s s₁ : Store} {t : Ptr} {r : Task} (more : List ℕ)
    → Wrote s t r s₁
    → Wrote (record s { supply = more }) t r (record s₁ { supply = more })
supply-Wrote more w = record {
  own = w.own;
  others = w.others;
  rest = ap (λ (x : Store). record x { supply = more }) w.rest;
}

-- what the steps together have done
Wrote-Made :
    {s s₃ s₄ s' : Store} {t : Ptr} {r₃ r r' : Task} (n : ℕ) (more : List ℕ)
    → Wrote s t r₃ s₃
    → Marked s₃ (λ j. if n == j then true else bit s₃.tid_bitmap.bits j) s₄
    → Wrote
        (record s { tid_bitmap = s₄.tid_bitmap; lock = s₄.lock; supply = more; unmasked = true })
        t
        r
        s'
    → r ≡ r'
    → Made s t r' (λ j. if n == j then true else bit s.tid_bitmap.bits j) more s'
Wrote-Made {s} {s₃} {s₄} {s'} {t} n more w₃ mk w same =
    let bitmap : s'.tid_bitmap ≡ s₄.tid_bitmap = ap (λ (x : Store). x.tid_bitmap) w.rest in
    let locks : s'.lock ≡ s₄.lock = ap (λ (x : Store). x.lock) w.rest in
    record {
      own = w.own ∙ same;
      others = w.others;
      bits =
          subst (λ b. HasBits b (λ j. if n == j then true else bit b.bits j) s'.tid_bitmap)
            (ap (λ (x : Store). x.tid_bitmap) w₃.rest)
            (subst
              (λ b.
                HasBits s₃.tid_bitmap (λ j. if n == j then true else bit s₃.tid_bitmap.bits j) b)
              (sym bitmap) mk.bits);
      locks = λ q.
          ap (λ (l : Ptr → Lock). l q) locks ∙ mk.locks q ∙ ap (λ (x : Store). x.lock q) w₃.rest;
      rest =
          w.rest
          ∙ ap
              (λ b. record s {
                task = s'.task;
                tid_bitmap = b;
                lock = s₄.lock;
                supply = more;
                unmasked = true;
              })
              (sym bitmap)
          ∙ ap
              (λ l. record s {
                task = s'.task;
                tid_bitmap = s'.tid_bitmap;
                lock = l;
                supply = more;
                unmasked = true;
              })
              (sym locks);
    }

module _ (rounds : ℕ) (s : Store) (t : Ptr) (prio : ℤ) (n : ℕ) (stack : Ptr) (more : List ℕ)
    (ht : t ≢ null) where
  pub fill_task-Made :
      {r : Task} {s' : Store}
      → Wrote s t r s'
      → Idle s'
      → IsBitmap s.tid_bitmap
      → FirstClear s.tid_bitmap n
      → s.supply ≡ stack ∷ more
      → Returns
          (λ _.
            Made s t
              (filled r prio (to_int16 (n + s.tid_start)) stack)
              (λ j. if n == j then true else bit s.tid_bitmap.bits j)
              more)
          (fill_task rounds t prio s')
  unfolding fill_task
  fill_task-Made {r} {s'} w idle valid first supply =
      let bitmap : s'.tid_bitmap ≡ s.tid_bitmap = ap (λ (x : Store). x.tid_bitmap) w.rest in
      bind (allocate_tid-Marked rounds s' n idle (rw bitmap valid) (rw bitmap first))
        λ tid s₄ (is, mk).
          bind (Wrote-modify (λ r. record r { tid = tid }) ht (Marked-Wrote w mk)) λ _ s₅ w₅.
            rw (malloc-eq s₅ stack more (ap (λ (x : Store). x.supply) w₅.rest ∙ supply)) (
              mono
                (writes-Wrote (λ r. record r { stack_min_addr = stack })
                  ((λ r. record r { task_stack = stack + task_stack_size })
                    ∷ (λ r. record r { priority = to_uint32 prio % 256 })
                    ∷ (λ r. record r { ticks = to_uint32 prio % 256 })
                    ∷ (λ r. record r { elapsed_ticks = 0 })
                    ∷ (λ r. record r { stack_magic = 0x19991120 })
                    ∷ (λ r. record r { sleep_millisecond = 0 })
                    ∷ (λ r. record r { is_hook = false })
                    ∷ (λ r. record r { is_collaborative_schedule = false })
                    ∷ [])
                  ht (supply-Wrote more w₅))
                λ _ s₆ w₆. Wrote-Made n more w mk w₆ (
                  ap (λ i. filled r prio i stack)
                    (is ∙ ap (λ (x : Store). to_int16 (n + x.tid_start)) w.rest)))
