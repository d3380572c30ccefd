-- ===== src/Sync/Steps/System.antt =====
-- The tasks of a program that share one lock, interleaved by the clock and by blocking.
use lutf.Base.{
  ℕ, ◌≤◌, ◌≡◌, ◌⊎◌, true, false, Bool, not, List, ◌∈◌, ◌∉◌, Distinct, length, ok, spin, switched,
}
use lutf.Lists.{Ptr, null}
use lutf.Store.{Store}
use lutf.Store.Access.{update_at}
use lutf.Tasks.{schedule}
use lutf.Sync.Steps.{
  Phase, outside, holding, asking, asking_again, giving, testing, stopped, lowering_from,
  raising_from, exec,
}
use lutf.Sync.Acquire.{free_lock}

pub record State : Type 0 where
  pub store : Store
  pub phase : Ptr → Phase

-- the running task stands at `b` now
abbrev pub goes_to : State → Store → Phase → State
goes_to a s b = record { store = s; phase = update_at a.phase a.store.current_task b }

abbrev pub running_phase : State → Phase
running_phase a = a.phase a.store.current_task

-- The tasks of the program: different, none of them NULL, and so few that the value, a byte, cannot
-- go round.
pub record AreFew (tasks : List Ptr) : Type 0 where
  pub distinct : Distinct tasks
  pub no_null : null ∉ tasks
  pub few : length tasks ≤ 256

-- The task has read the value of the lock, to write it.
abbrev pub reads : Phase → Bool
reads (lowering_from v) = true
reads (raising_from v) = true
reads _ = false

-- Where the clock may come if it does not come between the reading and the writing of the value, and where it
-- may come otherwise.
abbrev pub between_changes : Phase → Bool
between_changes phase = not (reads phase)

abbrev pub anywhere : Phase → Bool
anywhere phase = true

-- One step. The running task does its next statement, which may stop it at an assertion or hand the
-- processor over; where it is in neither call, it may call one, and otherwise do what it likes to
-- the memory, but for the lock. The clock may call `schedule` where SIGALRM is let through
-- and the running task stands where `may` says so.
-- A task that waits may be interrupted inside its queueing and its blocking: a part of these does anything to the
-- memory, and gives the processor to any task, but leaves the lock.
pub data Step (may : Phase → Bool) (rounds : ℕ) (p : Ptr) (tasks : List Ptr) (a b : State)
    : Type 0 where
  runs :
      (s : Store) (next : Phase)
      → a.store.current_task ∈ tasks
      → exec rounds p (running_phase a) a.store ≡ ok next s
      → b ≡ goes_to a s next
      → Step may rounds p tasks a b
  stops :
      (s : Store)
      → a.store.current_task ∈ tasks
      → exec rounds p (running_phase a) a.store ≡ spin s
      → b ≡ goes_to a s (stopped (running_phase a))
      → Step may rounds p tasks a b
  blocks :
      (s : Store)
      → exec rounds p (running_phase a) a.store ≡ switched s
      → b ≡ record a { store = s }
      → Step may rounds p tasks a b
  asks :
      a.store.current_task ∈ tasks
      → running_phase a ≡ outside
      → b ≡ goes_to a a.store asking
      → Step may rounds p tasks a b
  asks_again :
      a.store.current_task ∈ tasks
      → running_phase a ≡ holding
      → b ≡ goes_to a a.store asking_again
      → Step may rounds p tasks a b
  gives :
      a.store.current_task ∈ tasks
      → running_phase a ≡ holding
      → b ≡ goes_to a a.store giving
      → Step may rounds p tasks a b
  clock :
      (s : Store)
      → a.store.unmasked ≡ true
      → may (running_phase a) ≡ true
      → schedule rounds a.store ≡ ok tt s
      → b ≡ record a { store = s }
      → Step may rounds p tasks a b
  queues :
      (s : Store)
      → running_phase a ≡ testing
      → s.lock p ≡ a.store.lock p
      → b ≡ record a { store = s }
      → Step may rounds p tasks a b
  elsewhere :
      (s : Store)
      → (running_phase a ≡ outside) ⊎ (running_phase a ≡ holding)
      → s.lock p ≡ a.store.lock p
      → b ≡ record a { store = s }
      → Step may rounds p tasks a b

-- At the start the lock is free, and no task is in one of the calls.
pub record IsStart (p : Ptr) (a : State) : Type 0 where
  pub free : a.store.lock p ≡ free_lock
  pub all_outside : (t : Ptr) → a.phase t ≡ outside

pub data Reach (may : Phase → Bool) (rounds : ℕ) (p : Ptr) (tasks : List Ptr) (a : State)
    : State → Type 0 where
  here : Reach may rounds p tasks a a
  later :
      {b c : State}
      → Reach may rounds p tasks a b
      → Step may rounds p tasks b c
      → Reach may rounds p tasks a c
