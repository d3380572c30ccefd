-- ===== src/Timers/Slots.antt =====
-- The wheels as sequences of timers, one for each head, and what `add_timer` and `delete_timer` do.
use lutf.Base.{
  ℕ, ◌+◌, ◌≤◌, ◌<◌, ◌≡◌, refl, ◌≢◌, ◌==◌, if◌then◌else◌, List, [], ◌∷◌, ◌++◌, arith, Returns,
  returns, Returns-eq, ◌∈◌, ◌∉◌, Apart, has-append, has, ◌||◌, Bool-cases, inl, inr, ==_iff,
  ==_self, ◌&&◌,
}
use lutf.Lists.{Ptr, Links}
use lutf.Lists.Chain.{SameOutside}
use lutf.Timers.Circle.{IsCircle, IsCircle-frame, insert_tail-IsCircle}
use lutf.Timers.Wheels.{Clock, slot, add_timer}

-- one of the heads of the manager at `m`
abbrev pub IsHead : (m h : Ptr) → Type 0
IsHead m h = (m < h) × (h < m + 513)

-- The slot with the head `h` holds the timers `f h`, in that order. Timers lie behind the manager, and
-- are among `ts`.
pub record IsWheel (l : Links) (m : Ptr) (ts : List Ptr) (f : Ptr → List Ptr) : Type 0 where
  pub place : 2 < m
  pub circle : (h : Ptr) → IsHead m h → IsCircle l h (f h)
  pub apart : (h k : Ptr) → IsHead m h → IsHead m k → h ≢ k → Apart (f h) (f k)
  pub nodes : (h : Ptr) → IsHead m h → (x : Ptr) → x ∈ f h → m + 513 ≤ x
  pub within : (h : Ptr) → IsHead m h → (x : Ptr) → x ∈ f h → x ∈ ts

-- `e` is one of the timers `ts`, behind the manager, that stands in no slot.
pub record IsFree (m : Ptr) (ts : List Ptr) (f : Ptr → List Ptr) (e : Ptr) : Type 0 where
  pub known : e ∈ ts
  pub behind : m + 513 ≤ e
  pub absent : (h : Ptr) → IsHead m h → e ∉ f h

-- one timer more in the slot at `h`, last
abbrev pub put : (Ptr → List Ptr) → Ptr → Ptr → Ptr → List Ptr
put f h e k = if k == h then f k ++ (e ∷ []) else f k

pub slot-IsHead : (m j t : ℕ) → IsHead m (slot m j t)
unfolding slot
slot-IsHead m j t = (ground arith, ground arith)

-- a slot is spared by a change of another one
spared :
    {l l' : Links} {m : Ptr} {ts : List Ptr} {f : Ptr → List Ptr} (e h k : Ptr)
    → IsWheel l m ts f
    → IsFree m ts f e
    → IsHead m h
    → IsHead m k
    → k ≢ h
    → SameOutside (e ∷ h ∷ f h) l l'
    → IsCircle l' k (f k)
spared {m} {f} e h k w free hh hk ne same =
    IsCircle-frame (e ∷ h ∷ f h) (w.circle k hk) same λ a i.
      ground (arith, w.nodes k hk a, w.nodes h hh a, w.apart k h hk hh ne a, free.absent k hk)

pub has-put :
    (f : Ptr → List Ptr) (h e k a : Ptr)
    → has a (put f h e k) ≡ (has a (f k) || ((k == h) && (a == e)))
has-put f h e k a = ground (arith, has-append a (f k) (e ∷ []))

pub put-IsWheel :
    {l l' : Links} {m : Ptr} {ts : List Ptr} {f : Ptr → List Ptr} (e h : Ptr)
    → IsWheel l m ts f
    → IsFree m ts f e
    → IsHead m h
    → IsCircle l' h (f h ++ (e ∷ []))
    → SameOutside (e ∷ h ∷ f h) l l'
    → IsWheel l' m ts (put f h e)
put-IsWheel {f} e h w free hh is same = record {
  place = w.place;
  circle = λ k hk. elim (Bool-cases (k == h)) [
    | inl eq ↦ rw ((==_iff k h).0 eq, ==_self) is
    | inr ne ↦ rw ne (spared e h k w free hh hk (ground arith) same)
  ];
  apart = λ k k' hk hk' ne a i. ground (
    arith,
    has-put f h e k a,
    has-put f h e k' a,
    w.apart k k' hk hk' ne a,
    free.absent k hk,
    free.absent k' hk',
  );
  nodes = λ k hk x i. ground (arith, has-put f h e k x, w.nodes k hk x, free.behind);
  within = λ k hk x i. ground (arith, has-put f h e k x, w.within k hk x, free.known);
}

-- `add_timer` puts a timer that stands in no slot last in the slot of its expiry, and the others stay
-- where they are. No node but it, the head of that slot and its timers is written, and nothing else of
-- the memory.
pub add_timer-IsWheel :
    (c : Clock) (ts : List Ptr) (f : Ptr → List Ptr) (e : Ptr)
    → IsWheel c.wheel c.timer_manager ts f
    → IsFree c.timer_manager ts f e
    → Returns
        (λ _ c'.
          let h = slot c.timer_manager c.u_jiffies (c.node e).u_expires in
          IsWheel c'.wheel c.timer_manager ts (put f h e)
          × SameOutside (e ∷ h ∷ f h) c.wheel c'.wheel
          × (c' ≡ record c { wheel = c'.wheel }))
        (add_timer e c)
unfolding add_timer
add_timer-IsWheel c ts f e w free =
    let h = slot c.timer_manager c.u_jiffies (c.node e).u_expires in
    let hh = slot-IsHead c.timer_manager c.u_jiffies (c.node e).u_expires in
    let (_, l, eq, is) = Returns-eq (
      insert_tail-IsCircle e (w.circle h hh) (ground (arith, free.absent h hh, free.behind, hh))
        (omega (arith, free.behind))) in
    rw eq (returns (put-IsWheel e h w free hh is.0 is.1, is.1, refl))
