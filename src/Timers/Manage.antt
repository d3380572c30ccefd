-- ===== src/Timers/Manage.antt =====
-- `create_timer` and `delete_timer`: a timer comes into its slot, and goes.
use lutf.Base.{
  ℕ, ◌+◌, ◌%◌, ◌^◌, ◌≤◌, ◌≡◌, refl, ◌≢◌, ◌==◌, false, if◌then◌else◌, List, ◌∷◌, ◌++◌, arith,
  Returns, returns, Returns-eq, ◌∈◌, ◌∉◌, ne→==_false, ==_self, ==_iff, has-append, Bool-cases, inl,
  inr,
}
use lutf.Base.Int.{pos}
use lutf.Lists.{Ptr, null, Links}
use lutf.Lists.Chain.{SameOutside}
use lutf.Store.Access.{malloc-eq}
use lutf.Sync.Acquire.{free_lock, LockSet}
use lutf.Sync.Idle.{IsIdle, taken_and_given}
use lutf.Timers.Cascade.{add_timer-eq}
use lutf.Timers.Circle.{IsCircle, IsCircle-frame}
use lutf.Timers.Unlink.{unlink-IsCircle}
use lutf.Timers.Run.{start_timer, create_timer, delete_timer}
use lutf.Timers.Slots.{IsHead, IsWheel, IsFree, put}
use lutf.Timers.Wheels.{Clock, TimerNode, slot}

-- more timers may be known
IsWheel-more :
    {l : Links} {m : Ptr} {ts : List Ptr} {f : Ptr → List Ptr} (t : Ptr)
    → IsWheel l m ts f
    → IsWheel l m (t ∷ ts) f
IsWheel-more t w = record {
  place = w.place;
  circle = w.circle;
  apart = w.apart;
  nodes = w.nodes;
  within = λ h hh x i. ground (arith, w.within h hh x i);
}

-- What `create_timer` leaves: `t` is in the slot of its expiry, behind the timers that are there.
pub record Created (c : Clock) (ts : List Ptr) (f : Ptr → List Ptr) (n : TimerNode) (t : Ptr)
    (c' : Clock) : Type 0 where
  pub wheel :
      IsWheel c'.wheel c.timer_manager
        (t ∷ ts)
        (put f (slot c.timer_manager c.u_jiffies n.u_expires) t)
  pub made : c'.node t ≡ n
  pub others : (p : Ptr) → p ≢ t → c'.node p ≡ c.node p
  pub idle : LockSet c.store c.lock free_lock c'.store
  pub rest : c' ≡ record c { store = c'.store; wheel = c'.wheel; node = c'.node }

start_timer-Created :
    (rounds : ℕ) (c : Clock) (ts : List Ptr) (f : Ptr → List Ptr) (fn param due period t : ℕ)
    → IsWheel c.wheel c.timer_manager ts f
    → IsFree c.timer_manager (t ∷ ts) f t
    → IsIdle c.store c.lock
    → Returns
        (λ r c'.
          (r ≡ t)
          × Created c ts f
              (record {
                u_expires = (c.u_jiffies + due) % 2 ^ 32;
                u_period = period;
                timer_fn = fn;
                p_param = param;
              })
              t
              c')
        (start_timer rounds fn param due period t c)
unfolding start_timer
start_timer-Created rounds c ts f fn param due period t w free idle =
    let n : TimerNode = record {
      u_expires = (c.u_jiffies + due) % 2 ^ 32;
      u_period = period;
      timer_fn = fn;
      p_param = param;
    } in
    let (s₁, s₂, take, give, set, mask) = taken_and_given rounds c.store c.lock idle in
    let c₂ : Clock = record c {
      store = s₁;
      node = λ p.
          if p == t
          then n
          else (if p == t
              then record (c.node t) { u_period = period; timer_fn = fn; p_param = param }
              else c.node p);
    } in
    let (l, eq, w', same) = add_timer-eq c₂ (t ∷ ts) f t (IsWheel-more t w) free in
    rw (take, ==_self, eq, give)
      (returns (
        refl,
        record {
          wheel = rw ==_self at w';
          made = rw ==_self refl;
          others = λ p ne. rw (ne→==_false p t ne) refl;
          idle = set;
          rest = refl;
        },
      ))

-- `create_timer` with a function and a manager, where `malloc` gives an address behind the manager that
-- stands in no slot, and the lock is idle: the new timer, due in `u_due_time` from now, stands last in
-- its slot, and the lock is free again. No other timer, lock or slot changes.
pub create_timer-Created :
    (rounds : ℕ) (c : Clock) (ts : List Ptr) (f : Ptr → List Ptr) (fn param due period t : ℕ)
    (more : List ℕ)
    → IsWheel c.wheel c.timer_manager ts f
    → fn ≢ null
    → c.store.supply ≡ t ∷ more
    → c.timer_manager + 513 ≤ t
    → ((h : Ptr) → IsHead c.timer_manager h → t ∉ f h)
    → IsIdle c.store c.lock
    → Returns
        (λ r c'.
          (r ≡ t)
          × Created
              (record c { store = record c.store { supply = more } })
              ts
              f
              (record {
                u_expires = (c.u_jiffies + due) % 2 ^ 32;
                u_period = period;
                timer_fn = fn;
                p_param = param;
              })
              t
              c')
        (create_timer rounds fn param due period c)
unfolding create_timer
create_timer-Created rounds c ts f fn param due period t more w some_fn supply behind absent idle =
    let no_fn : (fn == null) ≡ false = ground arith in
    let no_manager : (c.timer_manager == null) ≡ false = ground (arith, w.place) in
    let got : (t == null) ≡ false = ground arith in
    rw (no_fn, no_manager, malloc-eq c.store t more supply, got)
      (start_timer-Created rounds (record c { store = record c.store { supply = more } }) ts f fn
        param due period t w (record { known = ground arith; behind = behind; absent = absent })
        (record {
          free = idle.free;
          nobody = idle.nobody;
          not_null = idle.not_null;
          running = idle.running;
        }))

-- the slots without one timer of the slot at `h`
abbrev pub cut : (Ptr → List Ptr) → Ptr → List Ptr → Ptr → List Ptr
cut f h xs k = if k == h then xs else f k

cut-IsWheel :
    {l l' : Links} {m : Ptr} {ts : List Ptr} {f : Ptr → List Ptr} (h e : Ptr) (xs zs : List Ptr)
    → IsWheel l m ts f
    → IsHead m h
    → f h ≡ xs ++ (e ∷ zs)
    → IsCircle l' h (xs ++ zs)
    → SameOutside (h ∷ (xs ++ (e ∷ zs))) l l'
    → IsWheel l' m ts (cut f h (xs ++ zs))
cut-IsWheel {m} {f} h e xs zs w hh stands is same = record {
  place = w.place;
  circle = λ k hk. elim (Bool-cases (k == h)) [
    | inl eq ↦ rw ((==_iff k h).0 eq, ==_self) is
    | inr ne ↦ rw ne (
        IsCircle-frame (h ∷ (xs ++ (e ∷ zs))) (w.circle k hk) same
          λ a i. rw stands at (other k hk (ground arith) a i))
  ];
  apart = λ k k' hk hk' ne a i. ground (arith, left k a, left k' a, w.apart k k' hk hk' ne a);
  nodes = λ k hk x i. ground (arith, left k x, w.nodes k hk x);
  within = λ k hk x i. ground (arith, left k x, w.within k hk x);
}
  where
    left : (k a : Ptr) → a ∈ cut f h (xs ++ zs) k → a ∈ f k
    left k a i = elim (Bool-cases (k == h)) [
      | inl eq ↦
          rw ((==_iff k h).0 eq, stands)
            (ground (arith, has-append a xs zs, has-append a xs (e ∷ zs)))
      | inr ne ↦ rw ne at i
    ]

    other : (k : Ptr) → IsHead m k → k ≢ h → (a : Ptr) → a ∈ (k ∷ f k) → a ∉ (h ∷ f h)
    other k hk ne a i = ground (arith, w.nodes k hk a, w.nodes h hh a, w.apart k h hk hh ne a)

-- `delete_timer` of a timer in the slot at `h`, with an idle lock: it leaves the slot, wherever it
-- stands, the other timers stay in their order, and the lock is free again.
pub delete_timer-IsWheel :
    (rounds : ℕ) (c : Clock) (ts : List Ptr) (f : Ptr → List Ptr) (h e : Ptr) (xs zs : List Ptr)
    → IsWheel c.wheel c.timer_manager ts f
    → IsHead c.timer_manager h
    → f h ≡ xs ++ (e ∷ zs)
    → IsIdle c.store c.lock
    → Returns
        (λ r c'.
          (r ≡ pos 0)
          × IsWheel c'.wheel c.timer_manager ts (cut f h (xs ++ zs))
          × LockSet c.store c.lock free_lock c'.store
          × (c' ≡ record c { store = c'.store; wheel = c'.wheel }))
        (delete_timer rounds e c)
unfolding delete_timer
delete_timer-IsWheel rounds c ts f h e xs zs w hh stands idle =
    let inside : e ∈ f h = rw stands (ground (arith, has-append e xs (e ∷ zs))) in
    let there : (c.timer_manager == null) ≡ false = ground (arith, w.place) in
    let some_timer : (e == null) ≡ false = ground (arith, w.nodes h hh e inside) in
    let (s₁, s₂, take, give, set, mask) = taken_and_given rounds c.store c.lock idle in
    let (_, l, eq, (is, same)) =
      Returns-eq (unlink-IsCircle c.wheel h xs zs e (rw stands at (w.circle h hh))) in
    rw (there, some_timer, take, eq, give)
      (returns (refl, cut-IsWheel h e xs zs w hh stands is same, set, refl))
