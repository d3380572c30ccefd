-- ===== src/IoQueue/Handover.antt =====
-- A character for a consumer that waits: the consumer sleeps on the empty ring, the producer puts the
-- character and wakes it, the clock lets it run, and it goes on where it slept.
use mathlib.Core.Path.{subst}
use lutf.Base.{
  sym, ℕ, suc, ◌<◌, ◌≡◌, refl, ◌≢◌, true, List, [], ◌∷◌, arith, Returns-eq, ap, ◌∙◌, ◌>>◌, ok,
  switched, ◌∉◌,
}
use lutf.Lists.{Ptr, null}
use lutf.Store.{Store, Lock, task_blocked}
use lutf.Sync.{lock_release}
use lutf.IoQueue.{IoQueue, Device, consumer_field, on_store, ioq_getchar, ioq_putchar}
use lutf.IoQueue.Ring.{IsRing}
use lutf.IoQueue.Wait.{CanWait, ioq_getchar-Waiting}
use lutf.IoQueue.Transfer.{ioq_putchar-Woken, ioq_getchar-cons, IsRing-same}
use lutf.Sync.Acquire.{free_lock, held}
use lutf.Sync.Waiters.{IsLockAddress, IsQueue-spared, IsQueue-spared_insert}
use lutf.Sync.Release.{lock_release_free}
use lutf.Tasks.{schedule, is_parked}
use lutf.Tasks.Queue.{IsTask, IsReady, IsQueue}
use lutf.Tasks.Preempt.{schedule_lem}
use lutf.Tasks.Park.{HandsOver-eq}

-- What stays on the way, and what changes: the characters, the consumer that waits, the task that
-- runs and those that are ready. The lock of the queue, at `l`, is held by the consumer, `c`.
record Stage (l c : Ptr) (xs : List ℕ) (waits run : Ptr) (ready : List Ptr) (d : Device)
    : Type 0 where
  ring : IsRing d.queue xs
  consumer : d.queue.consumer ≡ waits
  producer : d.queue.producer ≡ null
  at : d.queue.lock ≡ l
  lock : d.store.lock l ≡ held c 1
  waiters : IsQueue d.store.links l []
  current : d.store.current_task ≡ run
  readies : IsReady d.store.links ready

sleeping :
    (k rounds : ℕ) (d : Device) (t : Ptr)
    → IsRing d.queue []
    → CanWait consumer_field d t []
    → d.queue.producer ≡ null
    → IsLockAddress d.queue.lock
    → IsQueue d.store.links d.queue.lock []
    → (d' : Device) × (ioq_getchar (suc k) rounds d ≡ switched d')
      × Stage d.queue.lock d.store.current_task [] d.store.current_task t [] d'
      × ((d'.store.task d.store.current_task).status ≡ task_blocked)
sleeping k rounds d t r can no_producer place waiters =
    let (d₁, sleeps, w) = HandsOver-eq (ioq_getchar-Waiting k rounds d t [] r can) in
    (
      d₁,
      sleeps,
      record {
        ring = IsRing-same w.queue r refl refl refl;
        consumer = ap (λ (q : IoQueue). q.consumer) w.queue;
        producer = ap (λ (q : IoQueue). q.producer) w.queue ∙ no_producer;
        at = ap (λ (q : IoQueue). q.lock) w.queue;
        lock = w.lock;
        waiters =
            IsQueue-spared [] (t ∷ []) waiters (omega arith) can.ready.tasks (omega arith)
              (λ a i. ground arith) w.spared;
        current = w.current;
        readies = w.ready;
      },
      w.status,
    )

writing :
    (j rounds : ℕ) (d : Device) (l c t : Ptr) (byte : ℕ)
    → Stage l c [] c t [] d
    → (d.store.task c).status ≡ task_blocked
    → IsTask c
    → IsLockAddress l
    → 0 < rounds
    → (d' : Device) × (ioq_putchar (suc j) rounds byte d ≡ ok tt d')
      × Stage l c (byte ∷ []) null t (c ∷ []) d'
writing j rounds d l c t byte h blocked task place lt =
    let parked : is_parked (d.store.task d.queue.consumer).status ≡ true =
      ap (λ x. is_parked (d.store.task x).status) h.consumer ∙ ap is_parked blocked in
    let (_, d₂, puts, (ring, nobody, at, producer, w)) = Returns-eq (
      ioq_putchar-Woken j rounds d [] byte [] h.ring (omega arith) h.readies
        (subst IsTask (sym h.consumer) task) refl parked lt) in
    (
      d₂,
      puts,
      record {
        ring = ring;
        consumer = nobody;
        producer = producer ∙ h.producer;
        at = at ∙ h.at;
        lock = ap (λ (f : Ptr → Lock). f l) w.globals.lock ∙ h.lock;
        waiters =
            IsQueue-spared_insert [] [] d.queue.consumer h.waiters (omega arith) tt
              (subst IsTask (sym h.consumer) task) (omega arith) (λ a i. ground arith) w.spared;
        current = w.current ∙ h.current;
        readies = subst (λ x. IsReady d₂.store.links (x ∷ [])) h.consumer w.ready;
      },
    )

preempting :
    (rounds : ℕ) (d : Device) (l c t : Ptr) (byte : ℕ)
    → Stage l c (byte ∷ []) null t (c ∷ []) d
    → IsTask c
    → IsTask t
    → t ≢ c
    → IsLockAddress l
    → 1 < rounds
    → (s : Store) × (schedule rounds d.store ≡ ok tt s)
      × Stage l c (byte ∷ []) null c (t ∷ []) (record d { store = s })
preempting rounds d l c t byte h task_c task_t ne place lt =
    let e = sym h.current in
    let (_, s, eq, sw) = Returns-eq (
      schedule_lem rounds d.store (c ∷ []) (t ∷ []) c h.readies (subst IsTask e task_t)
        (subst (λ x. x ∉ (c ∷ [])) e (ground arith)) lt (ap (λ x. c ∷ x ∷ []) h.current)) in
    (
      s,
      eq,
      record {
        ring = h.ring;
        consumer = h.consumer;
        producer = h.producer;
        at = h.at;
        lock = ap (λ (f : Ptr → Lock). f l) sw.0.globals.lock ∙ h.lock;
        waiters =
            IsQueue-spared [] (c ∷ t ∷ []) h.waiters (omega arith) (task_c, (task_t, tt))
              (omega arith) (λ a i. ground arith) sw.1;
        current = sw.0.current;
        readies = sw.0.ready;
      },
    )

receiving :
    (k rounds : ℕ) (d : Device) (l c t : Ptr) (byte : ℕ)
    → Stage l c (byte ∷ []) null c (t ∷ []) d
    → IsLockAddress l
    → (d' : Device) × ((on_store (lock_release rounds l) >> ioq_getchar (suc k) rounds) d
        ≡ ok byte d')
      × IsRing d'.queue []
      × (d'.queue.consumer ≡ null)
      × (d'.store.lock l ≡ free_lock)
      × IsReady d'.store.links (t ∷ [])
receiving k rounds d l c t byte h place =
    let (_, s, gives, set) = Returns-eq (
      lock_release_free rounds d.store l h.waiters (omega arith)
        (h.lock ∙ ap (λ x. held x 1) (sym h.current))) in
    let (b, d₄, gets, (is, ring, consumer, store)) =
      Returns-eq (ioq_getchar-cons k rounds (record d { store = s }) byte [] h.ring h.producer) in
    (
      d₄,
      rw gives (rw is at gets),
      ring,
      consumer ∙ h.consumer,
      ap (λ (x : Store). x.lock l) store ∙ set.0.lock,
      rw store (rw set.0.rest h.readies),
    )

-- The devices on the way: `asleep` when the consumer has been blocked, `written` when the producer has put
-- the character, `woken` when the clock has given the consumer the processor, and `done` when it has
-- the character.
pub record Delivery (k j rounds : ℕ) (d : Device) (t : Ptr) (byte : ℕ) : Type 0 where
  pub asleep : Device
  pub written : Device
  pub woken : Store
  pub done : Device
  pub sleeps : ioq_getchar (suc (suc k)) rounds d ≡ switched asleep
  pub producer_runs : asleep.store.current_task ≡ t
  pub puts : ioq_putchar (suc j) rounds byte asleep ≡ ok tt written
  pub preempted : schedule rounds written.store ≡ ok tt woken
  pub consumer_runs : woken.current_task ≡ d.store.current_task
  pub gets :
      (on_store (lock_release rounds d.queue.lock) >> ioq_getchar (suc k) rounds)
        (record written { store = woken })
      ≡ ok byte done
  pub empty : IsRing done.queue []
  pub nobody : done.queue.consumer ≡ null
  pub free : done.store.lock d.queue.lock ≡ free_lock
  pub ready : IsReady done.store.links (t ∷ [])

-- `ioq_getchar` on an empty ring whose lock is free and has no waiters, with one other task ready:
-- the caller sleeps and the other task runs; when that puts a character with `ioq_putchar`, the sleeper becomes
-- ready, and after one clock preemption it gives the lock back and returns the character; the ring is empty again.
pub getchar-Delivery :
    (k j rounds : ℕ) (d : Device) (t : Ptr) (byte : ℕ)
    → IsRing d.queue []
    → CanWait consumer_field d t []
    → d.queue.producer ≡ null
    → IsLockAddress d.queue.lock
    → IsQueue d.store.links d.queue.lock []
    → IsTask d.store.current_task
    → 1 < rounds
    → Delivery k j rounds d t byte
getchar-Delivery k j rounds d t byte r can no_producer place waiters task lt =
    let c = d.store.current_task in
    let l = d.queue.lock in
    let (d₁, sleeps, h₁, blocked) = sleeping (suc k) rounds d t r can no_producer place waiters in
    let (d₂, puts, h₂) = writing j rounds d₁ l c t byte h₁ blocked task place (omega arith) in
    let (s₃, preempted, h₃) =
      preempting rounds d₂ l c t byte h₂ task can.ready.tasks.0 can.other place lt in
    let (d₄, gets, empty, nobody, free, ready) =
      receiving k rounds (record d₂ { store = s₃ }) l c t byte h₃ place in
    record {
      asleep = d₁;
      written = d₂;
      woken = s₃;
      done = d₄;
      sleeps = sleeps;
      producer_runs = h₁.current;
      puts = puts;
      preempted = preempted;
      consumer_runs = h₃.current;
      gets = gets;
      empty = empty;
      nobody = nobody;
      free = free;
      ready = ready;
    }
