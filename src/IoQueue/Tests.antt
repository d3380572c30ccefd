-- ===== src/IoQueue/Tests.antt =====
-- The theorems about the I/O queue at a small device.
use lutf.Base.{ℕ, zero, suc, refl, ◌++◌, List, [], ◌∷◌, arith}
use lutf.IoQueue.{IoQueue, Device}
use lutf.IoQueue.Ring.{IsRing}
use lutf.Samples.{busy_links, a_store, alone_links, alone_ready, alone_waiting}
use lutf.Sync.Acquire.{free_lock}
use lutf.IoQueue.Handover.{Delivery, getchar-Delivery}

abbrev zeros : ℕ → List ℕ
zeros zero = []
zeros (suc n) = 0 ∷ zeros n

-- the characters 65 and 66 stand in the last slot and in the first
abbrev ring : ℕ → ℕ → IoQueue
ring producer consumer = record {
  lock = 8;
  producer = producer;
  consumer = consumer;
  buf = 66 ∷ (zeros 62 ++ (65 ∷ []));
  head = 1;
  tail = 63;
}

abbrev device : ℕ → ℕ → Device
device producer consumer = record {
  queue = ring producer consumer;
  store = a_store busy_links free_lock;
}

abbrev drained : Device
drained = record (device 0 0) { queue = record (ring 0 0) { head = 63 } }

drained-IsRing : IsRing drained.queue []
drained-IsRing = record {
  slots = tt;
  size = refl;
  tail_in = omega arith;
  head_at = refl;
  room = omega arith;
}

-- the ring with 63 characters
abbrev crammed : Device
crammed = record (device 0 0) { queue = record (ring 0 0) { buf = zeros 64; head = 63; tail = 0 } }

crammed-IsRing : IsRing crammed.queue (zeros 63)
crammed-IsRing = record {
  slots = ground arith;
  size = refl;
  tail_in = omega arith;
  head_at = refl;
  room = omega arith;
}

-- the task 100 is ready, and nobody waits for the lock of the empty ring
abbrev calm : Device
calm = record drained { store = a_store alone_links free_lock }

getchar-Delivery_example : Delivery 0 0 5 calm 100 67
getchar-Delivery_example =
    getchar-Delivery 0 0 5 calm 100 67 drained-IsRing
      (record {
        nobody = refl;
        place = omega arith;
        running = omega arith;
        free = refl;
        ready = alone_ready;
        other = omega arith;
      })
      refl (omega arith) alone_waiting (omega arith) (omega arith)
