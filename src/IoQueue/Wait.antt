-- ===== src/IoQueue/Wait.antt =====
-- The wait of `ioq_getchar` on an empty ring, and of `ioq_putchar` on a full one.
use lutf.Base.{
  sym, ℕ, suc, ◌≡◌, refl, ◌≢◌, ◌==◌, true, List, [], ◌∷◌, Returns-eq, ap, ◌∙◌, Cmd, ◌>>◌, length,
}
use lutf.Lists.{Ptr, null}
use lutf.Lists.Chain.{nodes, SameOutside}
use lutf.Store.{Store, Task, Lock, task_blocked, task_ready_list}
use lutf.Sync.{lock_acquire, lock_release}
use lutf.IoQueue.{
  Device, Waiter, producer_field, consumer_field, on_store, ioq_empty, ioq_full, ioq_wait,
  ioq_getchar, ioq_putchar,
}
use lutf.IoQueue.Ring.{IsRing, ioq_empty-full}
use lutf.Sync.Acquire.{free_lock, held, lock_acquire_free}
use lutf.Tasks.Queue.{IsReady, tags}
use lutf.Tasks.Park.{HandsOver, hands_over, HandsOver-eq, task_block-Switched}

-- The running task is noted as the one that waits, and is blocked; the first ready task, `t`, runs.
-- The lock of the queue stays with the task that sleeps, and no node outside the ready list is written.
pub record Waiting (w : Waiter) (d : Device) (t : Ptr) (ts : List Ptr) (d' : Device) : Type 0 where
  pub queue : d'.queue ≡ w.put d.store.current_task d.queue
  pub current : d'.store.current_task ≡ t
  pub status : (d'.store.task d.store.current_task).status ≡ task_blocked
  pub lock : d'.store.lock d.queue.lock ≡ held d.store.current_task 1
  pub ready : IsReady d'.store.links ts
  pub spared : SameOutside (nodes task_ready_list (tags (t ∷ ts))) d.store.links d'.store.links

-- A device where the running task can wait: the lock of the queue is free, and the first ready task
-- is another one.
pub record CanWait (w : Waiter) (d : Device) (t : Ptr) (ts : List Ptr) : Type 0 where
  pub nobody : w.who d.queue ≡ null
  pub place : d.queue.lock ≢ null
  pub running : d.store.current_task ≢ null
  pub free : d.store.lock d.queue.lock ≡ free_lock
  pub ready : IsReady d.store.links (t ∷ ts)
  pub other : t ≢ d.store.current_task

wait-Waiting :
    {A : Type 0} (w : Waiter) (rounds : ℕ) (d : Device) (t : Ptr) (ts : List Ptr) (k : Cmd Device A)
    → CanWait w d t ts
    → HandsOver
        (Waiting w d t ts)
        ((on_store (lock_acquire rounds d.queue.lock) >> (ioq_wait w >> k)) d)
unfolding ioq_wait
wait-Waiting w rounds d t ts k h =
    let nobody' : (w.who d.queue == null) ≡ true = rw h.nobody refl in
    let (_, s₁, eq, set) =
      Returns-eq (lock_acquire_free rounds d.store d.queue.lock h.place h.running h.free) in
    let current : s₁.current_task ≡ d.store.current_task =
      ap (λ (x : Store). x.current_task) set.0.rest in
    let links : s₁.links ≡ d.store.links = ap (λ (x : Store). x.links) set.0.rest in
    let (s₂, block, k₂) =
      HandsOver-eq
        (task_block-Switched s₁ task_blocked t ts refl (rw current h.running) (rw links h.ready)) in
    rw (eq, nobody', current, block)
      (hands_over (record {
        queue = refl;
        current = k₂.0.current;
        status =
            ap (λ c. (s₂.task c).status) (sym current)
            ∙ ap (λ (x : Task). x.status) (k₂.0.parked (λ e. h.other (e ∙ current)));
        lock = ap (λ (f : Ptr → Lock). f d.queue.lock) k₂.0.globals.lock ∙ set.0.lock;
        ready = k₂.0.ready;
        spared = rw links at k₂.1;
      }))

-- `ioq_getchar` on an empty ring, with no other consumer waiting, its lock free and a task ready: the
-- running task is noted as the consumer and blocks, and the first ready task, another one, runs. The lock of the
-- queue stays with the task that sleeps.
pub ioq_getchar-Waiting :
    (k rounds : ℕ) (d : Device) (t : Ptr) (ts : List Ptr)
    → IsRing d.queue []
    → CanWait consumer_field d t ts
    → HandsOver (Waiting consumer_field d t ts) (ioq_getchar (suc k) rounds d)
unfolding ioq_getchar
ioq_getchar-Waiting k rounds d t ts r h =
    let none_there : ioq_empty d.queue ≡ true = (ioq_empty-full d.queue [] r).0 in
    rw none_there (
      wait-Waiting consumer_field rounds d t ts
        (on_store (lock_release rounds d.queue.lock) >> ioq_getchar k rounds) h)

-- `ioq_putchar` on a ring with 63 characters, with no other producer waiting, its lock free and a task
-- ready: the running task is noted as the producer and blocks, and the first ready task, another
-- one, runs. The lock of the queue stays with the task that sleeps.
pub ioq_putchar-Waiting :
    (k rounds : ℕ) (d : Device) (xs : List ℕ) (byte : ℕ) (t : Ptr) (ts : List Ptr)
    → IsRing d.queue xs
    → length xs ≡ 63
    → CanWait producer_field d t ts
    → HandsOver (Waiting producer_field d t ts) (ioq_putchar (suc k) rounds byte d)
unfolding ioq_putchar
ioq_putchar-Waiting k rounds d xs byte t ts r all h =
    let full : ioq_full d.queue ≡ true = (ioq_empty-full d.queue xs r).1 ∙ rw all refl in
    rw full (
      wait-Waiting producer_field rounds d t ts
        (on_store (lock_release rounds d.queue.lock) >> ioq_putchar k rounds byte) h)
