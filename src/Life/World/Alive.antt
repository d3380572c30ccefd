-- ===== src/Life/World/Alive.antt =====
-- What holds of all tasks after any events.
use lutf.Base.{ℕ, ◌+◌, arith, ◌≡◌, ◌≢◌, ◌∈◌, sym, ◌∙◌}
use lutf.Base.Int.{pos}
use lutf.Life.World.{World, Sound, Event, starts, ends, clock, Life, born, lives}
use lutf.Life.World.Starts.{start-Sound}
use lutf.Life.World.Ends.{end-Sound}
use lutf.Life.World.Preempts.{clock-Sound}
use lutf.Lists.{Ptr}

pub Event-Sound :
    {rounds entrance : ℕ} {w w' : World} → Sound w → Event rounds entrance w w' → Sound w'
Event-Sound {rounds} {entrance} {w} h
      (starts name prio function func_arg t n stack more s short unpooled supply task other new
        first small few eq e) =
    rw e (
      start-Sound rounds entrance w h name prio function func_arg t n stack more s short unpooled
        supply task other new first small few eq)
Event-Sound {rounds} {entrance} {w} h (ends u ts us vs s ready all other few eq e) =
    rw e (end-Sound rounds w h u ts us vs s ready all other few eq)
Event-Sound {rounds} {entrance} {w} h (clock t ts s turn few eq e) =
    rw e (clock-Sound rounds w t ts s h turn few eq)

-- However tasks start, end and are preempted, where tids stay below 2^15 and the clock comes only between
-- complete calls of `task_start` and `task_exit`: the lists of the memory hold the ready tasks, all tasks and the pool, the running task is one of all tasks and not ready,
-- the counter counts all tasks, and the tid of each is made from a bit of its own that is set.
pub Life-Sound :
    {rounds entrance : ℕ} {w w' : World} → Sound w → Life rounds entrance w w' → Sound w'
Life-Sound h born = h
Life-Sound h (lives l e) = Event-Sound (Life-Sound h l) e

-- Different tasks have different tids, however tasks have started, ended and been preempted, where tids
-- stay below 2^15 and the clock comes only between complete calls of `task_start` and `task_exit`.
pub tids_unique :
    {rounds entrance : ℕ} {w w' : World}
    → Sound w
    → Life rounds entrance w w'
    → (t u : Ptr) → t ∈ w'.all
    → u ∈ w'.all
    → t ≢ u
    → (w'.store.task t).tid ≢ (w'.store.task u).tid
tids_unique {w'} h l t u i j other same =
    let k = Life-Sound h l in
    let a = k.numbered.each t i in
    let b = k.numbered.each u j in
    other (
      k.numbered.unique t u i j
        (pos-inj (k.num t) (k.num u) w'.store.tid_start (sym a.tid ∙ same ∙ b.tid)))
  where
    pos-inj : (a b c : ℕ) → pos (a + c) ≡ pos (b + c) → a ≡ b
    pos-inj a b c e = ground arith
