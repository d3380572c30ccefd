-- ===== src/Store/Access.antt =====
-- Reads and writes of the memory, as commands.
use lutf.Base.{
  arith, ◌≡◌, ◌≢◌, ℕ, true, false, ◌==◌, if◌then◌else◌, Cmd, Run, Unit₀, ok, fault, spin, switched,
  run_on, List, [], ◌∷◌, ap,
}
use lutf.Bitmap.{Bitmap}
use lutf.Lists.{Ptr, null, Links}
use lutf.Store.{Store, Task, Lock}

abbrev pub set_links : Links → Store → Store
set_links l s = record s { links = l }

abbrev pub set_bitmap : Bitmap → Store → Store
set_bitmap b s = record s { tid_bitmap = b }

-- an operation of list.c
abbrev pub on_links : {A : Type 0} → Cmd Links A → Cmd Store A
on_links = run_on (λ s. s.links) set_links

-- an operation of bitmap.c on `tid_pool.tid_bitmap`
abbrev pub on_bitmap : {A : Type 0} → Cmd Bitmap A → Cmd Store A
on_bitmap = run_on (λ s. s.tid_bitmap) set_bitmap

abbrev pub update_at : {A : Type 0} → (Ptr → A) → Ptr → A → Ptr → A
update_at f p v q = if q == p then v else f q

-- the fields of `*p`, and a change of them; through NULL both are undefined
unfoldable pub get_task : Ptr → Cmd Store Task
get_task p s = if p == null then fault else ok (s.task p) s

unfoldable pub modify_task : Ptr → (Task → Task) → Cmd Store Unit₀
modify_task p f s =
    if p == null then fault else ok tt (record s { task = update_at s.task p (f (s.task p)) })

unfoldable pub get_lock : Ptr → Cmd Store Lock
get_lock p s = if p == null then fault else ok (s.lock p) s

unfoldable pub modify_lock : Ptr → (Lock → Lock) → Cmd Store Unit₀
modify_lock p f s =
    if p == null then fault else ok tt (record s { lock = update_at s.lock p (f (s.lock p)) })

-- the globals
abbrev pub get_current : Cmd Store Ptr
get_current s = ok s.current_task s

abbrev pub set_current : Ptr → Cmd Store Unit₀
set_current t s = ok tt (record s { current_task = t })

abbrev pub get_main : Cmd Store Ptr
get_main s = ok s.main_task s

-- `interrupt_disable` and `interrupt_enable` of src/interrupt/analog_interrupt.c: SIGALRM is
-- blocked or not; nothing counts how often.
unfoldable pub interrupt_disable : Cmd Store Unit₀
interrupt_disable s = ok tt (record s { unmasked = false })

unfoldable pub interrupt_enable : Cmd Store Unit₀
interrupt_enable s = ok tt (record s { unmasked = true })

-- an infinite loop of the source
abbrev pub loop_forever : {A : Type 0} → Cmd Store A
loop_forever s = spin s

-- the processor goes to another task, and the call does not return now
abbrev pub leave : {A : Type 0} → Cmd Store A
leave s = switched s

-- `malloc`: the next address of the supply
abbrev pub next_of : List ℕ → Store → Run Store Ptr
next_of [] s = ok null s
next_of (p ∷ ps) s = ok p (record s { supply = ps })

unfoldable pub malloc : Cmd Store Ptr
malloc s = next_of s.supply s

pub malloc-eq :
    (s : Store) (t : Ptr) (more : List ℕ)
    → s.supply ≡ t ∷ more
    → malloc s ≡ ok t (record s { supply = more })
unfolding malloc
malloc-eq s t more e = ap (λ x. next_of x s) e

pub update_at_self : {A : Type 0} (f : Ptr → A) (p : Ptr) (v : A) → update_at f p v p ≡ v
update_at_self f p v = ground arith

abbrev pub put_lock : Store → Ptr → Lock → Store
put_lock s p l = record s { lock = update_at s.lock p l }

abbrev pub put_task : Store → Ptr → Task → Store
put_task s p r = record s { task = update_at s.task p r }

module _ (s : Store) (p : Ptr) (h : p ≢ null) where
  not_null : (p == null) ≡ false
  not_null = ground arith

  pub get_lock-eq : get_lock p s ≡ ok (s.lock p) s
  unfolding get_lock
  get_lock-eq = rw not_null

  pub modify_lock-eq : (f : Lock → Lock) → modify_lock p f s ≡ ok tt (put_lock s p (f (s.lock p)))
  unfolding modify_lock
  modify_lock-eq f = rw not_null

  pub get_task-eq : get_task p s ≡ ok (s.task p) s
  unfolding get_task
  get_task-eq = rw not_null

  pub modify_task-eq : (f : Task → Task) → modify_task p f s ≡ ok tt (put_task s p (f (s.task p)))
  unfolding modify_task
  modify_task-eq f = rw not_null
