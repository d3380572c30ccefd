-- ===== src/Life/World/Starts.antt =====
-- `task_start`: the new task joins the ready ones and all tasks, with a tid that no other has.
use mathlib.Core.Path.{subst}
use lutf.Base.{
  ℕ, ◌+◌, ◌*◌, ◌^◌, ◌<◌, ◌≡◌, ◌≢◌, refl, ◌==◌, ==_iff, ==_self, Bool-cases, inl, inr, ◌⊎◌, true,
  false, List, [], ◌∷◌, ◌++◌, ◌∈◌, ◌∉◌, Apart, length, ok, arith, ap, sym, ◌∙◌, has, has-append,
  Returns-ok, length-append, length-le_of_Distinct, Distinct-snoc, not-mem-append, if◌then◌else◌,
  ne→==_false,
}
use lutf.Base.Int.{ℤ, pos, inc, to_int16-small}
use lutf.Bitmap.Bits.{bit}
use lutf.Bitmap.Scan.{FirstClear}
use lutf.Bitmap.Update.{HasBits}
use lutf.Life.{task_start}
use lutf.Life.Parted.{pool_tags}
use lutf.Life.Enlisted.{joined-Lists}
use lutf.Life.Start.{CanStart, task_start-Started}
use lutf.Life.World.{World, Sound, HasTid, Numbered}
use lutf.Life.World.Preempts.{queue-Distinct}
use lutf.Lists.{Ptr}
use lutf.Lists.Chain.{IsList}
use lutf.Store.{Store, Task, tid_lock, task_pool_list}
use lutf.Store.Access.{update_at}
use lutf.Tasks.Queue.{IsTask}

has-snoc :
    (a : Ptr) (us : List Ptr) (t : Ptr) → a ∈ (us ++ (t ∷ [])) → (a ≡ t) ⊎ ((a ≢ t) × (a ∈ us))
has-snoc a us t i = elim (Bool-cases (a == t)) [
  | inl e ↦ inl ((==_iff a t).0 e)
  | inr n ↦ inr (ground arith, ground (arith, has-append a us (t ∷ [])))
]

has_left : (a : Ptr) (us : List Ptr) (t : Ptr) → a ∈ us → a ∈ (us ++ (t ∷ []))
has_left a us t i = ground (arith, has-append a us (t ∷ []))

has_last : (us : List Ptr) (t : Ptr) → t ∈ (us ++ (t ∷ []))
has_last us t = ground (arith, has-append t us (t ∷ []))

module _ (s s' : Store) (us : List Ptr) (num : Ptr → ℕ) (t : Ptr) (n : ℕ) (h : Numbered s us num)
    (new : t ∉ us) (clear : bit s.tid_bitmap.bits n ≡ false)
    (inside : n < length s.tid_bitmap.bits * 8) (small : n + s.tid_start < 2 ^ 15)
    (tid : (s'.task t).tid ≡ pos (n + s.tid_start))
    (others : (p : Ptr) → p ≢ t → s'.task p ≡ s.task p) (start : s'.tid_start ≡ s.tid_start)
    (bits : HasBits s.tid_bitmap
      (λ j. if n == j then true else bit s.tid_bitmap.bits j)
      s'.tid_bitmap) where
  new_HasTid : HasTid s' t n
  new_HasTid = record {
    tid = tid ∙ ap (λ b. pos (n + b)) (sym start);
    small = rw start small;
    inside = rw bits.same_size inside;
    used = bits.bits n ∙ rw (==_self n) refl;
  }

  old_HasTid : (a : Ptr) → a ≢ t → a ∈ us → HasTid s' a (num a)
  old_HasTid a ne i =
      let k = h.each a i in
      record {
        tid =
            ap (λ (r : Task). r.tid) (others a ne) ∙ k.tid ∙ ap (λ b. pos (num a + b)) (sym start);
        small = rw start k.small;
        inside = rw bits.same_size k.inside;
        used =
            bits.bits (num a)
            ∙ elim (Bool-cases (n == num a)) [ inl e ↦ rw e refl | inr e ↦ rw e k.used ];
      }

  other_number : (a : Ptr) → a ∈ us → num a ≢ n
  other_number a i e =
      absurd (ground (arith, clear, (h.each a i).used, ap (bit s.tid_bitmap.bits) e))

  abbrev renumbered : Ptr → ℕ
  renumbered = update_at num t n

  kept_number : (a : Ptr) → a ≢ t → renumbered a ≡ num a
  kept_number a ne = rw (ne→==_false a t ne) refl

  new_number : (a : Ptr) → a ≡ t → renumbered a ≡ n
  new_number a e = subst (λ x. renumbered x ≡ n) (sym e) (rw (==_self t) refl)

  -- The new number is that of a bit that was clear, and the others are those of set bits.
  Numbered-snoc : Numbered s' (us ++ (t ∷ [])) renumbered
  Numbered-snoc = record {
    each = λ a i. elim (has-snoc a us t i) [
      | inl e ↦ subst (λ x. HasTid s' x (renumbered x)) (sym e) (rw (==_self t) new_HasTid)
      | inr p ↦ subst (HasTid s' a) (sym (kept_number a p.0)) (old_HasTid a p.0 p.1)
    ];
    unique = λ a b i j same. elim (has-snoc a us t i) [
      | inl e ↦ elim (has-snoc b us t j) [
        | inl f ↦ e ∙ sym f
        | inr f ↦ absurd (other_number b f.1 (sym (kept_number b f.0) ∙ sym same ∙ new_number a e))
      ]
      | inr e ↦ elim (has-snoc b us t j) [
        | inl f ↦ absurd (other_number a e.1 (sym (kept_number a e.0) ∙ same ∙ new_number b f))
        | inr f ↦ h.unique a b e.1 f.1 (sym (kept_number a e.0) ∙ same ∙ kept_number b f.0)
      ]
    ];
  }

module _ (rounds entrance : ℕ) (w : World) (h : Sound w) (name : List ℕ) (prio : ℤ)
    (function func_arg : ℕ) (t : Ptr) (n : ℕ) (stack : Ptr) (more : List ℕ) (s : Store)
    (short : length name < 32) (unpooled : w.pool ≡ []) (supply : w.store.supply ≡ t ∷ stack ∷ more)
    (task : IsTask t) (other : t ≢ w.store.main_task) (new : t ∉ w.all)
    (first : FirstClear w.store.tid_bitmap n) (small : n + w.store.tid_start < 2 ^ 15)
    (few : length w.all < rounds) where
  new_ready : t ∉ w.ready
  new_ready = elim (Bool-cases (has t w.ready)) [
    | inl i ↦ absurd (ground (arith, h.ready_known t i))
    | inr out ↦ out
  ]

  start-CanStart : CanStart w.store rounds t n stack more w.ready w.all
  start-CanStart = record {
    pool =
        subst (λ ps. IsList w.store.links task_pool_list (pool_tags ps)) unpooled h.lists.pool.list;
    supply = supply;
    place = task;
    other = other;
    idle = record { free = h.free; nobody = h.lists.nobody; running = omega (arith, h.place.0) };
    bitmap = h.bitmap;
    first = first;
    ready = h.lists.ready;
    all = h.lists.all;
    not_ready = new_ready;
    not_known = new;
    few_ready = omega (
      arith,
      few,
      length-le_of_Distinct w.ready w.all (queue-Distinct w.ready h.lists.ready) h.ready_known,
    );
    few = few;
  }

  not_last : w.store.current_task ∉ (w.ready ++ (t ∷ []))
  not_last = elim (Bool-cases (w.store.current_task == t)) [
    | inl e ↦
        absurd (
          ground (arith, new, subst (λ x. x ∈ w.all) ((==_iff w.store.current_task t).0 e) h.known))
    | inr ne ↦ not-mem-append w.store.current_task w.ready (t ∷ []) h.runs (ground arith)
  ]

  pub start-Sound :
      task_start rounds entrance name prio function func_arg w.store ≡ ok t s
      → Sound (record w { store = s; ready = w.ready ++ (t ∷ []); all = w.all ++ (t ∷ []) })
  start-Sound eq =
      let (_, is) = Returns-ok (
        rw eq at (
          task_start-Started rounds entrance name prio function func_arg w.store t n stack more
            w.ready w.all start-CanStart short)) in
      let out_pool : t ∉ w.pool = subst (λ ps. t ∉ ps) (sym unpooled) refl in
      record {
        lists = joined-Lists t w.ready w.all w.pool h.lists task out_pool is.spared is.ready is.all;
        distinct = Distinct-snoc w.all t h.distinct new;
        place = subst IsTask (sym is.current) h.place;
        runs = subst (λ x. x ∉ (w.ready ++ (t ∷ []))) (sym is.current) not_last;
        known =
            subst (λ x. x ∈ (w.all ++ (t ∷ []))) (sym is.current)
              (has_left w.store.current_task w.all t h.known);
        ready_known = λ a i. elim (has-snoc a w.ready t i) [
          | inl e ↦ subst (λ x. x ∈ (w.all ++ (t ∷ []))) (sym e) (has_last w.all t)
          | inr k ↦ has_left a w.all t (h.ready_known a k.1)
        ];
        unpooled = subst (λ ps. Apart (w.all ++ (t ∷ [])) ps) (sym unpooled) (λ a i. refl);
        free = is.locks tid_lock ∙ h.free;
        bitmap = is.bits.valid;
        count = is.count ∙ ap inc h.count ∙ ap pos (sym (length-append w.all (t ∷ [])));
        num = update_at h.num t n;
        numbered =
            Numbered-snoc w.store s w.all h.num t n h.numbered new first.clear
              (omega (arith, first.within, h.bitmap.holds)) small
              (ap (λ (r : Task). r.tid) is.own ∙ to_int16-small (n + w.store.tid_start) small)
              is.others is.start is.bits;
      }
