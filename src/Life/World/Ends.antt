-- ===== src/Life/World/Ends.antt =====
-- `task_exit`: the running task leaves all tasks for the pool, and its tid is free again.
use mathlib.Core.Path.{subst}
use lutf.Base.{
  ℕ, ◌+◌, ◌<◌, ◌≡◌, ◌≢◌, ◌==◌, ==_iff, Bool-cases, inl, inr, List, [], ◌∷◌, ◌++◌, ◌∈◌, ◌∉◌, length,
  switched, suc, arith, ap, sym, ◌∙◌, has-append, length-append, length-le_of_Distinct, Distinct,
  Distinct-drop, Distinct-middle, not-mem-append,
}
use lutf.Base.Int.{pos, dec}
use lutf.Life.{task_exit}
use lutf.Life.Parted.{Lists}
use lutf.Life.Exit.{CanExit, Exited, task_exit-Exited}
use lutf.Life.World.{World, Sound, Numbered}
use lutf.Life.World.Preempts.{queue-Distinct, has_head, has_more}
use lutf.Lists.{Ptr}
use lutf.Store.{Store, Task, tid_lock}
use lutf.Tasks.Park.{HandsOver-switched}
use lutf.Tasks.Queue.{IsTask, IsQueue-Distinct}

-- what is in a sequence without its middle
has_rest : (a c : Ptr) (us vs : List Ptr) → a ∈ (us ++ (c ∷ vs)) → a ≢ c → a ∈ (us ++ vs)
has_rest a c us vs i ne = ground (arith, has-append a us (c ∷ vs), has-append a us vs)

has_whole : (a c : Ptr) (us vs : List Ptr) → a ∈ (us ++ vs) → a ∈ (us ++ (c ∷ vs))
has_whole a c us vs i = ground (arith, has-append a us (c ∷ vs), has-append a us vs)

has_middle : (c : Ptr) (us vs : List Ptr) → c ∈ (us ++ (c ∷ vs))
has_middle c us vs = ground (arith, has-append c us (c ∷ vs))

length-middle : (c : Ptr) (us vs : List Ptr) → length (us ++ (c ∷ vs)) ≡ suc (length (us ++ vs))
length-middle c us vs = omega (arith, length-append us (c ∷ vs), length-append us vs)

rest_ne : (a c : Ptr) (us vs : List Ptr) → Distinct (us ++ (c ∷ vs)) → a ∈ (us ++ vs) → a ≢ c
rest_ne a c us vs d i = ground (arith, Distinct-middle us vs c d, has-append a us vs)

module _ (s s' : Store) (us vs ts ps : List Ptr) (u : Ptr) (num : Ptr → ℕ)
    (h : Numbered s (us ++ (s.current_task ∷ vs)) num) (d : Distinct (us ++ (s.current_task ∷ vs)))
    (is : Exited s u ts us vs ps (num s.current_task) s') where
  tid_same : (a : Ptr) → a ≢ s.current_task → (s'.task a).tid ≡ (s.task a).tid
  tid_same a ne = elim (Bool-cases (a == u)) [
    | inl e ↦
        subst (λ x. (s'.task x).tid ≡ (s.task x).tid) (sym ((==_iff a u).0 e))
          (ap (λ (r : Task). r.tid) is.next)
    | inr n ↦ ap (λ (r : Task). r.tid) (is.others a ne (ground arith))
  ]

  Numbered-rest : Numbered s' (us ++ vs) num
  Numbered-rest = record {
    each = λ a i.
        let c = s.current_task in
        let whole = has_whole a c us vs i in
        let ne = rest_ne a c us vs d i in
        let k = h.each a whole in
        record {
          tid = tid_same a ne ∙ k.tid ∙ ap (λ b. pos (num a + b)) (sym is.start);
          small = rw is.start k.small;
          inside = rw is.bits.same_size k.inside;
          used = is.bits.bits (num a) ∙ elim (Bool-cases (num c == num a)) [
            | inl e ↦
                absurd (
                  ne (sym (h.unique c a (has_middle c us vs) whole ((==_iff (num c) (num a)).0 e))))
            | inr e ↦ rw e k.used
          ];
        };
    unique = λ a b i j.
        h.unique a b (has_whole a s.current_task us vs i) (has_whole b s.current_task us vs j);
  }

module _ (rounds : ℕ) (w : World) (h : Sound w) (u : Ptr) (ts us vs : List Ptr) (s : Store)
    (ready : w.ready ≡ u ∷ ts) (all : w.all ≡ us ++ (w.store.current_task ∷ vs))
    (other : w.store.current_task ≢ w.store.main_task) (few : length w.all < rounds) where
  pub end-CanExit : CanExit w.store rounds u ts us vs w.pool (h.num w.store.current_task)
  end-CanExit =
      let k = h.numbered.each w.store.current_task h.known in
      let lists : Lists w.store.links (u ∷ ts) w.all w.pool =
        subst (λ x. Lists w.store.links x w.all w.pool) ready h.lists in
      record {
        lists = subst (λ x. Lists w.store.links (u ∷ ts) x w.pool) all lists;
        place = h.place;
        running = subst (λ x. w.store.current_task ∉ x) ready h.runs;
        unpooled = h.unpooled w.store.current_task h.known;
        other = other;
        free = h.free;
        bitmap = h.bitmap;
        tid = k.tid;
        inside = k.inside;
        small = k.small;
        few =
            subst (λ x. length x < rounds) ready
              (omega (
                arith,
                few,
                length-le_of_Distinct w.ready w.all (queue-Distinct w.ready h.lists.ready)
                    h.ready_known,
              ));
      }

  next_known : (a : Ptr) → a ∈ (u ∷ ts) → a ∈ (us ++ vs)
  next_known a i =
      let c = w.store.current_task in
      let ready_a : a ∈ w.ready = subst (λ x. a ∈ x) (sym ready) i in
      has_rest a c us vs (subst (λ x. a ∈ x) all (h.ready_known a ready_a))
        (λ e. absurd (ground (arith, h.runs, subst (λ x. x ∈ w.ready) e ready_a)))

  pub end-Sound :
      task_exit rounds w.store.current_task w.store ≡ switched s
      → Sound (record {
        store = s;
        ready = ts;
        all = us ++ vs;
        pool = w.pool ++ (w.store.current_task ∷ []);
      })
  end-Sound eq =
      let c = w.store.current_task in
      let can = end-CanExit in
      let d : Distinct (us ++ (c ∷ vs)) = subst Distinct all h.distinct in
      let is =
        HandsOver-switched
          (rw eq at (task_exit-Exited rounds w.store u ts us vs w.pool (h.num c) can)) in
      record {
        lists = is.lists;
        distinct = Distinct-drop us vs c d;
        place = subst IsTask (sym is.current) can.lists.ready.tasks.0;
        runs = subst (λ x. x ∉ ts) (sym is.current) (IsQueue-Distinct u ts can.lists.ready);
        known = subst (λ x. x ∈ (us ++ vs)) (sym is.current) (next_known u (has_head u ts));
        ready_known = λ a i. next_known a (has_more a u ts i);
        unpooled = λ a i.
            not-mem-append a w.pool (c ∷ [])
              (h.unpooled a (subst (λ x. a ∈ x) (sym all) (has_whole a c us vs i)))
              (let ne = rest_ne a c us vs d i in ground arith);
        free = is.locks tid_lock ∙ h.free;
        bitmap = is.bits.valid;
        count = is.count ∙ ap dec (h.count ∙ ap pos (ap length all ∙ length-middle c us vs));
        num = h.num;
        numbered =
            Numbered-rest w.store s us vs ts w.pool u h.num
              (subst (λ x. Numbered w.store x h.num) all h.numbered) d is;
      }
