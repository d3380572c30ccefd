-- ===== src/Timers/Start.antt =====
-- `timer_init`: empty wheels, and the timer that cleans up ended tasks.
use lutf.Base.{
  ℕ, zero, suc, ◌+◌, ◌%◌, ◌^◌, ◌≤◌, ◌<◌, ◌≡◌, refl, ◌≢◌, ◌==◌, leb, ltb, false, ◌&&◌, if◌then◌else◌,
  List, [], ◌∷◌, arith, ok, Returns, returns, Returns-eq, mono, sym, ◌∙◌, ap,
}
use mathlib.Core.Path.{subst}
use lutf.Lists.{Ptr, null, Links, set_next, set_prev}
use lutf.Store.{Store}
use lutf.Store.Access.{malloc-eq}
use lutf.Sync.Acquire.{free_lock}
use lutf.Sync.Init.{lock_init-free}
use lutf.Timers.{init_from, init_array_list_timer}
use lutf.Timers.Manage.{create_timer-Created}
use lutf.Timers.Run.{init_wheels, timer_init}
use lutf.Timers.Slots.{IsWheel, put}
use lutf.Timers.Wheels.{Clock, slot, get_jiffies}

-- The nodes from `lo` to below `hi` lead to themselves; the others are as before.
abbrev Looped : (lo hi : Ptr) → Links → Links → Type 0
Looped lo hi l l' =
    (p : Ptr)
    → (l'.next p ≡ (if leb lo p && ltb p hi then p else l.next p))
      × (l'.prev p ≡ (if leb lo p && ltb p hi then p else l.prev p))

init_from-Looped :
    (size i : ℕ) (arr : Ptr) (l : Links)
    → 0 < arr
    → Returns (λ _. Looped (arr + i) (arr + i + size) l) (init_from size i arr l)
unfolding init_from set_next set_prev
init_from-Looped zero i arr l h = returns (λ p. ground arith)
init_from-Looped (suc size) i arr l h =
    let some_head : (arr + i == null) ≡ false = ground arith in
    rw (some_head, some_head)
      (mono (init_from-Looped size (suc i) arr _ h)
        λ _ l' done p. (ground (arith, (done p).0), ground (arith, (done p).1)))

-- the same, with the bounds of the region as they come
init_from-Looped_at :
    (arr size lo hi : ℕ) (l : Links)
    → 0 < arr
    → arr + 0 ≡ lo
    → arr + 0 + size ≡ hi
    → Returns (λ _. Looped lo hi l) (init_from size 0 arr l)
init_from-Looped_at arr size lo hi l h start end =
    mono (init_from-Looped size 0 arr l h)
      λ _ l' done p. (ground (arith, (done p).0), ground (arith, (done p).1))

array-Looped :
    (arr size lo hi : ℕ) (l : Links)
    → 0 < arr
    → arr ≡ lo
    → arr + size ≡ hi
    → (l' : Links) × (init_array_list_timer arr size l ≡ ok tt l') × Looped lo hi l l'
unfolding init_array_list_timer
array-Looped arr size lo hi l h start end =
    let (_, l', eq, done) =
      Returns-eq (init_from-Looped_at arr size lo hi l h (omega arith) (omega arith)) in
    (l', eq, done)

Looped-trans :
    (l l₁ l₂ : Links) (a b c : ℕ)
    → a ≤ b
    → b ≤ c
    → Looped a b l l₁
    → Looped b c l₁ l₂
    → Looped a c l l₂
Looped-trans l l₁ l₂ a b c ab bc one two p =
    (ground (arith, (one p).0, (two p).0), ground (arith, (one p).1, (two p).1))

init_wheels-Looped :
    (c : Clock) (m : Ptr)
    → (l : Links) × (init_wheels m c ≡ ok tt (record c { wheel = l }))
      × Looped (m + 1) (m + 513) c.wheel l
unfolding init_wheels
init_wheels-Looped c m =
    let (l₁, e₁, d₁) =
      array-Looped (m + 1) 256 (m + 1) (m + 257) c.wheel (omega arith) refl (omega arith) in
    let (l₂, e₂, d₂) =
      array-Looped (m + 257) 64 (m + 257) (m + 321) l₁ (omega arith) refl (omega arith) in
    let (l₃, e₃, d₃) =
      array-Looped (m + 321) 64 (m + 321) (m + 385) l₂ (omega arith) refl (omega arith) in
    let (l₄, e₄, d₄) =
      array-Looped (m + 385) 64 (m + 385) (m + 449) l₃ (omega arith) refl (omega arith) in
    let (l₅, e₅, d₅) =
      array-Looped (m + 449) 64 (m + 449) (m + 513) l₄ (omega arith) refl (omega arith) in
    (
      l₅,
      rw (e₁, e₂, e₃, e₄, e₅) refl,
      Looped-trans _ _ _ (m + 1) (m + 449) (m + 513) (omega arith) (omega arith)
          (Looped-trans _ _ _ (m + 1) (m + 385) (m + 449) (omega arith) (omega arith)
            (Looped-trans _ _ _ (m + 1) (m + 321) (m + 385) (omega arith) (omega arith)
              (Looped-trans _ _ _ (m + 1) (m + 257) (m + 321) (omega arith) (omega arith) d₁ d₂) d₃)
            d₄)
          d₅,
    )

empty-IsWheel :
    (l₀ l : Links) (m : Ptr) → 2 < m → Looped (m + 1) (m + 513) l₀ l → IsWheel l m [] (λ _. [])
empty-IsWheel l₀ l m h d = record {
  place = h;
  circle = λ k hk. record {
    chain = (ground (arith, (d k).0), ground (arith, (d k).1));
    distinct = ground arith;
    not_null = ground arith;
  };
  apart = λ k k' hk hk' ne a i. refl;
  nodes = λ k hk x i. cc;
  within = λ k hk x i. i;
}

-- `timer_init`, where `malloc` gives an address for the manager and one behind it, and a task runs: the
-- time of the manager is that of the clock, its lock is free, and its slots hold nothing but the timer
-- that calls `clean_dead_task` every 150 seconds.
pub timer_init-Created :
    (rounds : ℕ) (c : Clock) (clean tv_sec tv_nsec m t : ℕ) (more : List ℕ)
    → c.store.supply ≡ m ∷ t ∷ more
    → 2 < m
    → m + 513 ≤ t
    → clean ≢ null
    → c.lock ≢ null
    → c.lock < 99
    → c.store.current_task ≢ null
    → Returns
        (λ _ c'.
          (c'.timer_manager ≡ m)
          × (c'.u_jiffies ≡ get_jiffies tv_sec tv_nsec)
          × (c'.u_exit_flag ≡ 0)
          × (c'.store.lock c.lock ≡ free_lock)
          × IsWheel c'.wheel m
              (t ∷ [])
              (put (λ _. []) (slot m c'.u_jiffies ((c'.u_jiffies + 150000) % 2 ^ 32)) t)
          × (c'.node t ≡ record {
            u_expires = (c'.u_jiffies + 150000) % 2 ^ 32;
            u_period = 150000;
            timer_fn = clean;
            p_param = m;
          }))
        (timer_init rounds clean tv_sec tv_nsec c)
unfolding timer_init
timer_init-Created rounds c clean tv_sec tv_nsec m t more supply place behind some_fn lock low
      running =
    let there : (m == null) ≡ false = ground arith in
    let (_, s, made, (free, nobody, same, others, rest)) =
      Returns-eq (lock_init-free (record c.store { supply = t ∷ more }) c.lock lock low) in
    let c₁ : Clock = record c {
      timer_manager = m;
      u_exit_flag = 0;
      store = s;
      u_jiffies = get_jiffies tv_sec tv_nsec;
    } in
    let (l, clear, looped) = init_wheels-Looped c₁ m in
    let c₂ : Clock = record c₁ { wheel = l } in
    rw (malloc-eq c.store m (t ∷ more) supply, there, made, clear)
      (let known : s.supply ≡ t ∷ more = ap (λ (x : Store). x.supply) rest in
        let runs : s.current_task ≢ null =
          λ e. running (sym (ap (λ (x : Store). x.current_task) rest) ∙ e) in
        let (r, c', eq, (is, new)) = Returns-eq (
          create_timer-Created rounds c₂ [] (λ _. []) clean m 150000 150000 t more
            (empty-IsWheel c.wheel l m place looped) some_fn known behind (λ h hh. ground arith)
            (record { free = free; nobody = nobody; not_null = lock; running = runs })) in
        let now : c'.u_jiffies ≡ get_jiffies tv_sec tv_nsec =
          ap (λ (x : Clock). x.u_jiffies) new.rest in
        rw eq (
          returns (
            ap (λ (x : Clock). x.timer_manager) new.rest,
            now,
            ap (λ (x : Clock). x.u_exit_flag) new.rest,
            new.idle.lock,
            subst
                (λ j.
                  IsWheel c'.wheel m (t ∷ []) (put (λ _. []) (slot m j ((j + 150000) % 2 ^ 32)) t))
                (sym now) new.wheel,
            subst
                (λ j. c'.node t ≡ record {
                  u_expires = (j + 150000) % 2 ^ 32;
                  u_period = 150000;
                  timer_fn = clean;
                  p_param = m;
                })
                (sym now) new.made,
          )))
