-- ===== src/IoQueue/Transfer.antt =====
-- `ioq_getchar` and `ioq_putchar` on the sequence of the characters in the ring.
use lutf.Base.{
  ℕ, suc, ◌<◌, ◌≡◌, refl, ◌==◌, true, false, List, [], ◌∷◌, ◌++◌, arith, ltb, length, Returns,
  returns, Returns-eq, mono, ap, ◌∙◌, bind, ◌∉◌,
}
use lutf.Lists.{Ptr, null}
use lutf.IoQueue.{
  IoQueue, Device, ioq_full, ioq_empty, take_char, give_char, ioq_getchar, ioq_putchar, wakeup,
  Waiter, producer_field, consumer_field,
}
use lutf.IoQueue.Ring.{IsRing, ioq_empty-full, put-IsRing, get-IsRing}
use lutf.Tasks.{is_parked}
use lutf.Tasks.Queue.{IsTask, IsReady}
use lutf.Tasks.Park.{Woken, task_unblock-Woken}

pub ioq_getchar-cons :
    (k rounds : ℕ) (d : Device) (x : ℕ) (xs : List ℕ)
    → IsRing d.queue (x ∷ xs)
    → d.queue.producer ≡ null
    → Returns
        (λ byte d'.
          (byte ≡ x)
          × IsRing d'.queue xs
          × (d'.queue.consumer ≡ d.queue.consumer)
          × (d'.store ≡ d.store))
        (ioq_getchar (suc k) rounds d)
unfolding ioq_getchar take_char
ioq_getchar-cons k rounds d x xs r nobody =
    let some_there : ioq_empty d.queue ≡ false =
      (ioq_empty-full d.queue (x ∷ xs) r).0 ∙ ground arith in
    let nobody' : (d.queue.producer == null) ≡ true = ground arith in
    rw (some_there, r.slots.0, nobody') (returns (refl, get-IsRing d.queue x xs r, refl, refl))

-- the characters do not depend on the waiting tasks or the lock
pub IsRing-same :
    {q q' q'' : IoQueue} {xs : List ℕ}
    → q' ≡ q''
    → IsRing q xs
    → q''.buf ≡ q.buf
    → q''.head ≡ q.head
    → q''.tail ≡ q.tail
    → IsRing q' xs
IsRing-same e r b h t = rw e (record {
  slots = rw (b, t) r.slots;
  size = rw b r.size;
  tail_in = rw t r.tail_in;
  head_at = rw (h, t) r.head_at;
  room = r.room;
})

-- `wakeup` of a parked task that is not in the ready queue: the field is cleared, and the task becomes
-- ready as `task_unblock` does it.
wakeup-Woken :
    (rounds : ℕ) (waiter : Waiter) (d : Device) (ts : List Ptr)
    → IsReady d.store.links ts
    → IsTask (waiter.who d.queue)
    → waiter.who d.queue ∉ ts
    → is_parked (d.store.task (waiter.who d.queue)).status ≡ true
    → length ts < rounds
    → Returns
        (λ _ d'.
          (d'.queue ≡ waiter.put null d.queue) × Woken d.store (waiter.who d.queue) ts d'.store)
        (wakeup rounds waiter d)
unfolding wakeup
wakeup-Woken rounds waiter d ts ready task out parked lt =
    let there : (waiter.who d.queue == null) ≡ false = ground arith in
    let (_, s, eq, w) =
      Returns-eq
        (task_unblock-Woken rounds d.store (waiter.who d.queue) ts ready task out parked lt) in
    rw (there, eq) (returns (refl, w))

-- `ioq_putchar` with less than 63 characters in the ring, while a parked consumer waits that is not in
-- the ready queue: the character goes behind the others, the consumer becomes ready, first in the
-- queue, and no longer counts as waiting. `rounds` exceeds the length of the ready queue.
pub ioq_putchar-Woken :
    (k rounds : ℕ) (d : Device) (xs : List ℕ) (byte : ℕ) (ts : List Ptr)
    → IsRing d.queue xs
    → length xs < 63
    → IsReady d.store.links ts
    → IsTask d.queue.consumer
    → d.queue.consumer ∉ ts
    → is_parked (d.store.task d.queue.consumer).status ≡ true
    → length ts < rounds
    → Returns
        (λ _ d'.
          IsRing d'.queue (xs ++ (byte ∷ []))
          × (d'.queue.consumer ≡ null)
          × (d'.queue.lock ≡ d.queue.lock)
          × (d'.queue.producer ≡ d.queue.producer)
          × Woken d.store d.queue.consumer ts d'.store)
        (ioq_putchar (suc k) rounds byte d)
unfolding ioq_putchar give_char
ioq_putchar-Woken k rounds d xs byte ts r more ready task out parked lt =
    let not_full : ioq_full d.queue ≡ false = (ioq_empty-full d.queue xs r).1 ∙ ground arith in
    let fits : ltb d.queue.head (length d.queue.buf) ≡ true = ground (arith, r.head_at, r.size) in
    let there : (d.queue.consumer == null) ≡ false = ground arith in
    rw (not_full, fits, there)
      (mono (wakeup-Woken rounds consumer_field _ ts ready task out parked lt) λ _ d' (q, w). (
        IsRing-same q (put-IsRing d.queue xs byte r more) refl refl refl,
        ap (λ (z : IoQueue). z.consumer) q,
        ap (λ (z : IoQueue). z.lock) q,
        ap (λ (z : IoQueue). z.producer) q,
        w,
      ))

-- `ioq_getchar` with characters in the ring, while a parked producer waits that is not in the ready
-- queue: it returns the oldest character and takes it away, and the producer becomes ready, first in
-- the queue, and no longer counts as waiting. `rounds` exceeds the length of the ready queue.
pub ioq_getchar-Woken :
    (k rounds : ℕ) (d : Device) (x : ℕ) (xs : List ℕ) (ts : List Ptr)
    → IsRing d.queue (x ∷ xs)
    → IsReady d.store.links ts
    → IsTask d.queue.producer
    → d.queue.producer ∉ ts
    → is_parked (d.store.task d.queue.producer).status ≡ true
    → length ts < rounds
    → Returns
        (λ byte d'.
          (byte ≡ x)
          × IsRing d'.queue xs
          × (d'.queue.producer ≡ null)
          × Woken d.store d.queue.producer ts d'.store)
        (ioq_getchar (suc k) rounds d)
unfolding ioq_getchar take_char
ioq_getchar-Woken k rounds d x xs ts r ready task out parked lt =
    let some_there : ioq_empty d.queue ≡ false =
      (ioq_empty-full d.queue (x ∷ xs) r).0 ∙ ground arith in
    let there : (d.queue.producer == null) ≡ false = ground arith in
    rw (some_there, r.slots.0, there)
      (bind (wakeup-Woken rounds producer_field _ ts ready task out parked lt) λ _ d' (q, w).
        returns (
          refl,
          IsRing-same q (get-IsRing d.queue x xs r) refl refl refl,
          ap (λ (z : IoQueue). z.producer) q,
          w,
        ))
