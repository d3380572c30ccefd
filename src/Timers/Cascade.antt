-- ===== src/Timers/Cascade.antt =====
-- `cascade_timer`: the timers of a slot are placed anew, by the time that is left to them.
use lutf.Base.{
  ℕ, zero, suc, ◌+◌, ◌≤◌, ◌<◌, ◌≡◌, refl, ◌≢◌, ◌==◌, false, if◌then◌else◌, List, [], ◌∷◌, arith, ok,
  Returns, returns, Returns-eq, bind, mono, ◌∈◌, ◌∉◌, Distinct, length, ◌∙◌, ap, Bool-cases, inl,
  inr, ==_iff, ==_self,
}
use lutf.Lists.{Ptr, null, Links, get_next}
use lutf.Lists.Chain.{Chain, SameOutside, front}
use lutf.Timers.{list_timer_replace_init}
use lutf.Timers.Circle.{IsCircle-frame, replace_init-IsCircle}
use lutf.Timers.Slots.{IsHead, IsWheel, IsFree, put, has-put, slot-IsHead, add_timer-IsWheel}
use lutf.Timers.Wheels.{Clock, TimerNode, slot, add_timer, list_tmr, cascade_from, cascade_timer}

-- the slots without the timers of the one at `h`
abbrev pub clear : (Ptr → List Ptr) → Ptr → Ptr → List Ptr
clear f h k = if k == h then [] else f k

-- The timers are put into their slots, one after the other.
abbrev pub place_all :
    (m u_jiffies : ℕ) → (Ptr → TimerNode) → List Ptr → (Ptr → List Ptr) → Ptr → List Ptr
place_all m j node [] f = f
place_all m j node (z ∷ zs) f = place_all m j node zs (put f (slot m j (node z).u_expires) z)

-- Forwards the links lead through `zs` to `b`.
abbrev Leads : Links → List Ptr → Ptr → Type 0
Leads l [] b = Unit
Leads l (z ∷ zs) b = (l.next z ≡ front zs b) × Leads l zs b

-- The timers `zs` wait in a list that ends at `b`, and stand in no slot.
pub record Pending (l : Links) (m : Ptr) (ts : List Ptr) (f : Ptr → List Ptr) (b : Ptr)
    (zs : List Ptr) : Type 0 where
  path : Leads l zs b
  distinct : Distinct zs
  behind : (x : Ptr) → x ∈ zs → m + 513 ≤ x
  absent : (h : Ptr) → IsHead m h → (x : Ptr) → x ∈ zs → x ∉ f h
  known : (x : Ptr) → x ∈ zs → x ∈ ts
  end_in : b ≤ m

Chain-Leads :
    (l : Links) (a b : Ptr) (xs : List Ptr)
    → Chain l a xs b
    → (l.next a ≡ front xs b) × Leads l xs b
Chain-Leads l a b [] c = (c.0, tt)
Chain-Leads l a b (x ∷ xs) c = (c.0, Chain-Leads l x b xs c.2)

Leads-frame :
    (l l' : Links) (b : Ptr) (zs ns : List Ptr)
    → SameOutside ns l l'
    → ((x : Ptr) → x ∈ zs → x ∉ ns)
    → Leads l zs b
    → Leads l' zs b
Leads-frame l l' b [] ns same apart p = tt
Leads-frame l l' b (z ∷ zs) ns same apart p = (
  (same z (apart z (ground arith))).0 ∙ p.0,
  Leads-frame l l' b zs ns same (λ x i. apart x (ground arith)) p.1,
)

-- The first of the waiting timers is put into a slot.
pub Pending-put :
    {l l' : Links} {m : Ptr} {ts : List Ptr} {f : Ptr → List Ptr} (b h z : Ptr) (zs : List Ptr)
    → Pending l m ts f b (z ∷ zs)
    → IsHead m h
    → SameOutside (z ∷ h ∷ f h) l l'
    → Pending l' m ts (put f h z) b zs
Pending-put {l} {l'} {f} b h z zs p hh same = record {
  path =
      Leads-frame l l' b zs (z ∷ h ∷ f h) same
        (λ x i. ground (arith, p.distinct.0, p.absent h hh x, p.behind x, hh)) p.path.1;
  distinct = p.distinct.1;
  behind = λ x i. p.behind x (ground arith);
  absent = λ k hk x i. ground (arith, has-put f h z k x, p.absent k hk x, p.distinct.0);
  known = λ x i. p.known x (ground arith);
  end_in = p.end_in;
}

-- The first of the waiting timers goes away.
pub Pending-drop :
    {l : Links} {m : Ptr} {ts : List Ptr} {f : Ptr → List Ptr} (b z : Ptr) (zs : List Ptr)
    → Pending l m ts f b (z ∷ zs)
    → Pending l m ts f b zs
Pending-drop b z zs p = record {
  path = p.path.1;
  distinct = p.distinct.1;
  behind = λ x i. p.behind x (ground arith);
  absent = λ k hk x i. p.absent k hk x (ground arith);
  known = λ x i. p.known x (ground arith);
  end_in = p.end_in;
}

pub Pending-IsFree :
    {l : Links} {m : Ptr} {ts : List Ptr} {f : Ptr → List Ptr} (b z : Ptr) (zs : List Ptr)
    → Pending l m ts f b (z ∷ zs)
    → IsFree m ts f z
Pending-IsFree b z zs p = record {
  known = p.known z (ground arith);
  behind = p.behind z (ground arith);
  absent = λ h hh. p.absent h hh z (ground arith);
}

pub next-Pending :
    {l : Links} {m : Ptr} {ts : List Ptr} {f : Ptr → List Ptr} (b z : Ptr) (zs : List Ptr)
    → Pending l m ts f b (z ∷ zs)
    → get_next z l ≡ ok (front zs b) l
unfolding get_next
next-Pending b z zs p = ground (arith, p.behind z, p.path)

-- A slot is emptied into a list on the stack.
pub detach-Pending :
    {l : Links} {m : Ptr} {ts : List Ptr} {f : Ptr → List Ptr} (h b : Ptr)
    → IsWheel l m ts f
    → IsHead m h
    → b ≢ null
    → b ≤ m
    → Returns
        (λ _ l'.
          IsWheel l' m ts (clear f h)
          × Pending l' m ts (clear f h) b (f h)
          × (l'.next b ≡ front (f h) b))
        (list_timer_replace_init h b l)
detach-Pending {l} {m} {f} h b w hh hb le =
    mono (replace_init-IsCircle h b (f h) (w.circle h hh) (ground (arith, w.nodes h hh b, hh)) hb)
      λ _ l' (moved, left, same). (
        record {
          place = w.place;
          circle = λ k hk. elim (Bool-cases (k == h)) [
            | inl eq ↦ rw ((==_iff k h).0 eq, ==_self) left
            | inr ne ↦ rw ne (
                IsCircle-frame (b ∷ h ∷ f h) (w.circle k hk) same λ a i.
                  ground
                    (arith, w.nodes k hk a, w.nodes h hh a, w.apart k h hk hh (ground arith) a))
          ];
          apart = λ k k' hk hk' ne a i. ground (arith, w.apart k k' hk hk' ne a);
          nodes = λ k hk x i. ground (arith, w.nodes k hk x);
          within = λ k hk x i. ground (arith, w.within k hk x);
        },
        record {
          path = (Chain-Leads l' b b (f h) moved.chain).1;
          distinct = moved.distinct.1;
          behind = w.nodes h hh;
          absent = λ k hk x i. elim (Bool-cases (k == h)) [
            | inl eq ↦ rw eq refl
            | inr ne ↦ rw ne (w.apart h k hh hk (ground arith) x i)
          ];
          known = w.within h hh;
          end_in = le;
        },
        (Chain-Leads l' b b (f h) moved.chain).0,
      )

-- the slots after `cascade_timer` on the slot at `h`
abbrev pub move : (m u_jiffies : ℕ) → (Ptr → TimerNode) → Ptr → (Ptr → List Ptr) → Ptr → List Ptr
move m j node h f = place_all m j node (f h) (clear f h)

-- what a function on the wheels leaves: the slots hold `f`, and nothing else has changed
abbrev pub Holds : {A : Type 0} → Clock → List Ptr → (Ptr → List Ptr) → A → Clock → Type 0
Holds c ts f _ c' = IsWheel c'.wheel c.timer_manager ts f × (c' ≡ record c { wheel = c'.wheel })

pub add_timer-eq :
    (c : Clock) (ts : List Ptr) (f : Ptr → List Ptr) (e : Ptr)
    → IsWheel c.wheel c.timer_manager ts f
    → IsFree c.timer_manager ts f e
    → (l : Links) × (add_timer e c ≡ ok tt (record c { wheel = l }))
      × IsWheel l c.timer_manager ts
          (put f (slot c.timer_manager c.u_jiffies (c.node e).u_expires) e)
      × SameOutside
          (e
            ∷ slot c.timer_manager c.u_jiffies (c.node e).u_expires
            ∷ f (slot c.timer_manager c.u_jiffies (c.node e).u_expires))
          c.wheel
          l
add_timer-eq c ts f e w free =
    let (_, c', eq, (w', same, kept)) = Returns-eq (add_timer-IsWheel c ts f e w free) in
    (c'.wheel, eq ∙ ap (ok tt) kept, w', same)

cascade_from-place_all :
    (k : ℕ) (c : Clock) (ts : List Ptr) (f : Ptr → List Ptr) (zs : List Ptr)
    → IsWheel c.wheel c.timer_manager ts f
    → Pending c.wheel c.timer_manager ts f list_tmr zs
    → length zs < k
    → Returns
        (Holds c ts (place_all c.timer_manager c.u_jiffies c.node zs f))
        (cascade_from k (front zs list_tmr) c)
unfolding cascade_from
cascade_from-place_all zero c ts f zs w p lt = absurd (omega arith)
cascade_from-place_all (suc k) c ts f [] w p lt = returns (w, refl)
cascade_from-place_all (suc k) c ts f (z ∷ zs) w p lt =
    let going : (z == list_tmr) ≡ false = ground (arith, p.behind z, p.end_in) in
    let (l, eq, w', same) = add_timer-eq c ts f z w (Pending-IsFree list_tmr z zs p) in
    rw (going, next-Pending list_tmr z zs p, eq)
      (cascade_from-place_all k (record c { wheel = l }) ts
        (put f (slot c.timer_manager c.u_jiffies (c.node z).u_expires) z) zs w'
        (Pending-put list_tmr _ z zs p
          (slot-IsHead c.timer_manager c.u_jiffies (c.node z).u_expires) same)
        (omega arith))

-- `cascade_timer` places the timers of its slot anew, in their order, and returns its index; `rounds`
-- exceeds their number. Nothing but the nodes of the timers and the heads is written.
pub cascade_timer-move :
    (rounds : ℕ) (c : Clock) (ts : List Ptr) (f : Ptr → List Ptr) (arr idx : ℕ)
    → IsWheel c.wheel c.timer_manager ts f
    → IsHead c.timer_manager (arr + idx)
    → length (f (arr + idx)) < rounds
    → Returns
        (λ i c'.
          (i ≡ idx)
          × IsWheel c'.wheel c.timer_manager ts
              (move c.timer_manager c.u_jiffies c.node (arr + idx) f)
          × (c' ≡ record c { wheel = c'.wheel }))
        (cascade_timer rounds arr idx c)
unfolding cascade_timer get_next
cascade_timer-move rounds c ts f arr idx w hh lt =
    let h = arr + idx in
    let (_, l, eq, (w', p, first)) =
      Returns-eq (detach-Pending h list_tmr w hh (omega arith) (omega (arith, w.place))) in
    rw (eq, first)
      (bind (cascade_from-place_all rounds (record c { wheel = l }) ts (clear f h) (f h) w' p lt)
        λ _ c' (done, kept). returns (refl, done, kept))

pub Pending-end :
    {l : Links} {m : Ptr} {ts : List Ptr} {f : Ptr → List Ptr} {b : Ptr} {zs : List Ptr}
    → Pending l m ts f b zs
    → b ≤ m
Pending-end p = p.end_in
