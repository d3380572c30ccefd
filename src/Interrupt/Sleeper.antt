-- ===== src/Interrupt/Sleeper.antt =====
-- The end of the clock interrupt for a task that is to sleep: it gets a timer and leaves the processor.
use lutf.Base.{
  ℕ, ◌+◌, ◌-◌, ◌≤◌, ◌<◌, ◌%◌, ◌^◌, ◌≡◌, refl, ◌≢◌, true, List, [], ◌∷◌, arith, Returns, returns,
  Returns-eq, length, ◌∉◌, sym, ◌∙◌, ap, mono, ne→==_false, ok, ==_self,
}
use mathlib.Core.Path.{subst}
use lutf.Interrupt.{end_of_slice, library_calls}
use lutf.Interrupt.Wake.{Awake, helper-Awake}
use lutf.Timers.Due.{run_from_on_time}
use lutf.Lists.{Ptr, null}
use lutf.Store.{Store, Lock}
use lutf.Tasks.{collaborative_schedule}
use lutf.Store.Access.{get_task-eq}
use lutf.Sync.Acquire.{free_lock}
use lutf.Tasks.Preempt.{collaborative_schedule_lem}
use lutf.Tasks.Queue.{IsReady, IsTask}
use lutf.Timers.Manage.{create_timer-Created}
use lutf.Sync.Idle.{IsIdle}
use lutf.Timers.Run.{Callbacks, run_from}
use lutf.Timers.Slots.{IsHead, IsWheel, put}
use lutf.Timers.Wheels.{Clock, slot}

-- when the sleep of the running task ends
abbrev pub wake_time : Clock → ℕ
wake_time c = (c.u_jiffies + (c.store.task c.store.current_task).sleep_millisecond) % 2 ^ 32

-- The running task of `c` sleeps, with the timer `z`, and `u` runs, the first of the ready tasks.
pub record Slept (c : Clock) (ts : List Ptr) (f : Ptr → List Ptr) (helper z u : Ptr) (us : List Ptr)
    (c' : Clock) : Type 0 where
  pub current : c'.store.current_task ≡ u
  pub ready : IsReady c'.store.links us
  pub parked :
      c'.store.task c.store.current_task
      ≡ record (c.store.task c.store.current_task) { context = c.store.cpu }
  pub cpu : c'.store.cpu ≡ (c.store.task u).context
  pub free : c'.store.lock c.lock ≡ free_lock
  pub wheel :
      IsWheel c'.wheel c.timer_manager
        (z ∷ ts)
        (put f (slot c.timer_manager c.u_jiffies (wake_time c)) z)
  pub timer : c'.node z ≡ record {
    u_expires = wake_time c;
    u_period = 0;
    timer_fn = helper;
    p_param = c.store.current_task;
  }
  pub rest : c' ≡ record c { store = c'.store; wheel = c'.wheel; node = c'.node }

-- What a clock interrupt finds where a task can be put to sleep: wheels in order, an idle lock, memory for a
-- timer `z`, and other tasks ready, the first of them `u`.
pub record Sleepy (c : Clock) (ts : List Ptr) (f : Ptr → List Ptr) (z : Ptr) (more : List ℕ)
    (u : Ptr) (us : List Ptr) : Type 0 where
  pub wheel : IsWheel c.wheel c.timer_manager ts f
  pub supply : c.store.supply ≡ z ∷ more
  pub behind : c.timer_manager + 513 ≤ z
  pub absent : (h : Ptr) → IsHead c.timer_manager h → z ∉ f h
  pub idle : IsIdle c.store c.lock
  pub ready : IsReady c.store.links (u ∷ us)
  pub not_ready : c.store.current_task ∉ (u ∷ us)

-- The processor goes from the running task of `s` to `u`, and the locks are `l`.
record Left (s : Store) (u : Ptr) (us : List Ptr) (l : Ptr → Lock) (s' : Store) : Type 0 where
  current : s'.current_task ≡ u
  ready : IsReady s'.links us
  parked : s'.task s.current_task ≡ record (s.task s.current_task) { context = s.cpu }
  cpu : s'.cpu ≡ (s.task u).context
  lock : s'.lock ≡ l

collaborative_schedule-Left :
    (s s₁ : Store) (u : Ptr) (us : List Ptr)
    → IsReady s.links (u ∷ us)
    → s.current_task ≢ null
    → s.current_task ∉ (u ∷ us)
    → s₁ ≡ record s { lock = s₁.lock; unmasked = s₁.unmasked; supply = s₁.supply }
    → Returns (λ _. Left s u us s₁.lock) (collaborative_schedule s₁)
collaborative_schedule-Left s s₁ u us r running away same =
    let s₂ : Store = record s { lock = s₁.lock; unmasked = s₁.unmasked; supply = s₁.supply } in
    let other : u ≢ s.current_task = ground arith in
    subst (λ x. Returns (λ _. Left s u us s₁.lock) (collaborative_schedule x)) (sym same)
      (mono (collaborative_schedule_lem s₂ u us r running) λ _ s' (w, _, _). record {
        current = w.current;
        ready = w.ready;
        parked = w.parked other;
        cpu = rw (ne→==_false u s.current_task other) at w.cpu;
        lock = w.globals.lock;
      })

-- The clock interrupt ends the turn of a task that is to sleep: a timer that is due when the sleep ends
-- stands last in its slot, the first ready task runs, and the sleeper has saved its registers and is
-- not ready.
pub end_of_slice-Slept :
    (rounds helper : ℕ) (c : Clock) (ts : List Ptr) (f : Ptr → List Ptr) (z : Ptr) (more : List ℕ)
    (u : Ptr) (us : List Ptr)
    → Sleepy c ts f z more u us
    → (c.store.task c.store.current_task).is_collaborative_schedule ≡ true
    → helper ≢ null
    → Returns (λ _. Slept c ts f helper z u us) (end_of_slice rounds helper c)
unfolding end_of_slice
end_of_slice-Slept rounds helper c ts f z more u us h asks some_fn =
    let t = c.store.current_task in
    let (r, c', eq, (is, new)) = Returns-eq (
      create_timer-Created rounds c ts f helper t (c.store.task t).sleep_millisecond 0 z more
        h.wheel some_fn h.supply h.behind h.absent h.idle) in
    rw (get_task-eq c.store t h.idle.running, asks, eq)
      (let kept : c'.store ≡ record c.store {
        lock = c'.store.lock;
        unmasked = c'.store.unmasked;
        supply = c'.store.supply;
      } =
          new.idle.rest
          ∙ ap
              (λ (m : List ℕ). record c.store {
                lock = c'.store.lock;
                unmasked = c'.store.unmasked;
                supply = m;
              })
              (sym (ap (λ (x : Store). x.supply) new.idle.rest)) in
        let (_, s, gone, left) = Returns-eq (
          collaborative_schedule-Left c.store c'.store u us h.ready h.idle.running h.not_ready
            kept) in
        rw gone (
          returns (record {
            current = left.current;
            ready = left.ready;
            parked = left.parked;
            cpu = left.cpu;
            free = ap (λ (l : Ptr → Lock). l c.lock) left.lock ∙ new.idle.lock;
            wheel = new.wheel;
            timer = new.made;
            rest = ap (λ (x : Clock). record x { store = s }) new.rest;
          })))

-- What `run_timer` does for the sleeper `t` that has left `c'`, at the times from `c'.u_jiffies` on.
pub record Naps (others : Callbacks) (k rounds helper : ℕ) (t : Ptr) (us : List Ptr) (due : ℕ)
    (c' : Clock) : Type 0 where
  pub wakes :
      Returns
        (λ _ d. Awake c'.store t us d.store × (d.u_jiffies ≡ due + 1))
        (run_from (library_calls others rounds helper) k rounds due c')
  pub sleeps :
      (now : ℕ)
      → c'.u_jiffies ≤ now
      → now < due
      → Returns
          (λ _ d. (d.store ≡ c'.store) × (d.u_jiffies ≡ now + 1))
          (run_from (library_calls others rounds helper) k rounds now c')

-- A nap of less than 256 ms with no other timers: the clock interrupt puts the running task to sleep, and the
-- loop of `run_timer` brings it back behind the ready tasks at the time at which the nap ends, and changes
-- no task before. `rounds` exceeds the number of ready tasks.
pub nap-Awake :
    (others : Callbacks) (k rounds helper : ℕ) (c : Clock) (z : Ptr) (more : List ℕ) (u : Ptr)
    (us : List Ptr)
    → Sleepy c [] (λ _. []) z more u us
    → (c.store.task c.store.current_task).is_collaborative_schedule ≡ true
    → helper ≢ null
    → IsTask c.store.current_task
    → (c.store.task c.store.current_task).sleep_millisecond < 256
    → c.u_jiffies < 2 ^ 32 - 257
    → length us < rounds
    → 1 < rounds
    → 256 < k
    → Returns
        (λ _ c'.
          Slept c [] (λ _. []) helper z u us c'
          × Naps others k rounds helper c.store.current_task us
              (c.u_jiffies + (c.store.task c.store.current_task).sleep_millisecond)
              c')
        (end_of_slice rounds helper c)
nap-Awake others k rounds helper c z more u us h asks some_fn task short early lt two enough =
    mono (end_of_slice-Slept rounds helper c [] (λ _. []) z more u us h asks some_fn) λ _ c' slept.
      let call = library_calls others rounds helper in
      let d = (c.store.task c.store.current_task).sleep_millisecond in
      let due : wake_time c ≡ c.u_jiffies + d = omega arith in
      let left : Clock = record c { store = c'.store; wheel = c'.wheel; node = c'.node } in
      let (_, s, eq, awake) = Returns-eq (
        helper-Awake rounds c'.store c.store.current_task us slept.ready task
          (ground (arith, h.not_ready)) lt) in
      let calls : call (left.node z).timer_fn (left.node z).p_param left.store ≡ ok tt s =
        rw (slept.timer, ==_self) eq in
      let (fires, waits) =
        run_from_on_time call left (z ∷ []) k rounds (wake_time c) z s slept.wheel (omega arith)
          enough (rw slept.timer refl) (omega arith) (omega arith) (omega arith) calls in
      (
        slept,
        subst (Naps others k rounds helper c.store.current_task us (c.u_jiffies + d))
            (sym slept.rest)
            (record {
              wakes = rw due at (
                  mono
                    {Q = λ _ x.
                      Awake c'.store c.store.current_task us x.store
                      × (x.u_jiffies ≡ wake_time c + 1)}
                    fires
                    λ _ x r. (
                      subst (Awake c'.store c.store.current_task us)
                          (sym (ap (λ (y : Clock). y.store) r.rest)) awake,
                      ap (λ (y : Clock). y.u_jiffies) r.rest,
                    ));
              sleeps = λ now past before. mono (waits now past (omega arith)) λ _ x r.
                  (ap (λ (y : Clock). y.store) r.rest, ap (λ (y : Clock). y.u_jiffies) r.rest);
            }),
      )
