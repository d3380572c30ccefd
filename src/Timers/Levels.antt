-- ===== src/Timers/Levels.antt =====
-- `cascade`, the emptying of one wheel into those below it, as a function on the slots.
use lutf.Base.{
  ℕ, ◌+◌, ◌%◌, ◌≤◌, ◌<◌, refl, ◌==◌, if◌then◌else◌, List, arith, pure, Cmd, Unit₀, ◌>>=◌, Returns,
  returns, Returns-eq, bind, length, Bool-cases, inl, inr, length-le_of_Distinct,
}
use lutf.Lists.{Ptr, Links}
use lutf.Timers.Slots.{IsHead, IsWheel}
use lutf.Timers.Cascade.{move, Holds, cascade_timer-move}
use lutf.Timers.Wheels.{Clock, TimerNode, cascade_timer, cascade, index}

-- the slots after `cascade` at the time `j`
abbrev pub cascaded : (m u_jiffies : ℕ) → (Ptr → TimerNode) → (Ptr → List Ptr) → Ptr → List Ptr
cascaded m j node f =
    let f2 = move m j node (m + 257 + index 0 j) f in
    let f3 = move m j node (m + 321 + index 1 j) f2 in
    let f4 = move m j node (m + 385 + index 2 j) f3 in
    let f5 = move m j node (m + 449 + index 3 j) f4 in
    if j % 256 == 0
    then (if index 0 j == 0
        then (if index 1 j == 0 then (if index 2 j == 0 then f5 else f4) else f3)
        else f2)
    else f

-- A slot holds no more timers than there are.
pub slot-le :
    {l : Links} {m : Ptr} {ts : List Ptr} {f : Ptr → List Ptr} (h : Ptr)
    → IsWheel l m ts f
    → IsHead m h
    → length (f h) ≤ length ts
slot-le {ts} {f} h w hh = length-le_of_Distinct (f h) ts (w.circle h hh).distinct.1 (w.within h hh)

-- one wheel, and what follows if its slot was the first
level-Holds :
    (rounds : ℕ) (c : Clock) (ts : List Ptr) (f g : Ptr → List Ptr) (arr idx : ℕ)
    (rest : Cmd Clock Unit₀)
    → IsWheel c.wheel c.timer_manager ts f
    → IsHead c.timer_manager (arr + idx)
    → length ts < rounds
    → ((l : Links)
        → IsWheel l c.timer_manager ts (move c.timer_manager c.u_jiffies c.node (arr + idx) f)
        → Returns (Holds (record c { wheel = l }) ts g) (rest (record c { wheel = l })))
    → Returns
        (Holds c ts (if idx == 0 then g else move c.timer_manager c.u_jiffies c.node (arr + idx) f))
        ((cascade_timer rounds arr idx >>= λ a. if a == 0 then rest else pure tt) c)
level-Holds rounds c ts f g arr idx rest w hh lt next =
    let (_, c', eq, (same, w', kept)) =
      Returns-eq
        (cascade_timer-move rounds c ts f arr idx w hh (omega (arith, slot-le (arr + idx) w hh))) in
    rw (eq, same)
      (elim (Bool-cases (idx == 0)) [
        | inl e ↦ rw (e, kept) (next c'.wheel w')
        | inr n ↦ rw n (returns (w', kept))
      ])

-- `cascade` moves the timers of a slot of the second wheel into the slots of their expiry whenever the
-- first wheel has gone round, and so on up to the fifth; `rounds` exceeds the number of timers.
pub cascade-cascaded :
    (rounds : ℕ) (c : Clock) (ts : List Ptr) (f : Ptr → List Ptr)
    → IsWheel c.wheel c.timer_manager ts f
    → length ts < rounds
    → Returns (Holds c ts (cascaded c.timer_manager c.u_jiffies c.node f)) (cascade rounds c)
unfolding cascade
cascade-cascaded rounds c ts f w lt =
    let m = c.timer_manager in
    let j = c.u_jiffies in
    let f2 = move m j c.node (m + 257 + index 0 j) f in
    let f3 = move m j c.node (m + 321 + index 1 j) f2 in
    let f4 = move m j c.node (m + 385 + index 2 j) f3 in
    elim (Bool-cases (j % 256 == 0)) [
      | inl e ↦ rw e (
          level-Holds rounds c ts f _ (m + 257) (index 0 j) _ w (omega arith) lt λ l₂ w₂.
            level-Holds rounds (record c { wheel = l₂ }) ts f2 _ (m + 321) (index 1 j) _ w₂
              (omega arith) lt
              λ l₃ w₃.
                level-Holds rounds (record c { wheel = l₃ }) ts f3 _ (m + 385) (index 2 j) _ w₃
                  (omega arith) lt
                  λ l₄ w₄.
                    bind
                      (cascade_timer-move rounds (record c { wheel = l₄ }) ts f4 (m + 449)
                        (index 3 j) w₄ (omega arith)
                        (omega (arith, slot-le (m + 449 + index 3 j) w₄ (omega arith))))
                      λ _ c' (_, done, kept). returns (done, kept))
      | inr n ↦ rw n (returns (w, refl))
    ]
