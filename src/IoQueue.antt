-- ===== src/IoQueue.antt =====
-- The I/O queue of src/device/ioqueue.c: a ring of 64 characters, one producer and one consumer that
-- wait for each other.
pub mod Ring
pub mod Transfer
pub mod Wait
pub mod Handover
mod Tests
use lutf.Base.{
  ℕ, zero, suc, ◌+◌, ◌-◌, ◌%◌, ◌^◌, Bool, true, false, not, ◌&&◌, ◌==◌, leb, if◌then◌else◌, List,
  get_elem?, set, length, ltb, Cmd, Run, Unit₀, Option, some, none, ok, fault, out_of_fuel, pure,
  assert, run_on, ◌>>=◌, ◌>>◌,
}
use lutf.Lists.{Ptr, null}
use lutf.Store.{Store, task_blocked}
use lutf.Sync.{lock_init, lock_acquire, lock_release}
use lutf.Tasks.{task_block, task_unblock}

abbrev pub bufsize : ℕ
bufsize = 64

-- `struct ioqueue`, but for its lock, which lies in the store at `lock`
pub record IoQueue : Type 0 where
  pub lock : Ptr
  pub producer : Ptr
  pub consumer : Ptr
  pub buf : List ℕ
  pub head : ℕ
  pub tail : ℕ

-- an I/O queue, and the memory of the library
pub record Device : Type 0 where
  pub queue : IoQueue
  pub store : Store

-- an operation of the library
abbrev pub on_store : {A : Type 0} → Cmd Store A → Cmd Device A
on_store = run_on (λ d. d.store) (λ s d. record d { store = s })

abbrev get_queue : Cmd Device IoQueue
get_queue d = ok d.queue d

abbrev modify_queue : (IoQueue → IoQueue) → Cmd Device Unit₀
modify_queue f d = ok tt (record d { queue = f d.queue })

unfoldable pub ioqueue_init : Cmd Device Unit₀
ioqueue_init = do
  ioq ← get_queue
  on_store (lock_init ioq.lock)
  modify_queue (λ q. record q { producer = null; consumer = null })
  modify_queue (λ q. record q { head = 0; tail = 0 })

abbrev pub next_pos : ℕ → ℕ
next_pos pos = (pos + 1) % bufsize

abbrev pub ioq_full : IoQueue → Bool
ioq_full ioq = next_pos ioq.head == ioq.tail

abbrev pub ioq_empty : IoQueue → Bool
ioq_empty ioq = ioq.head == ioq.tail

-- One of the two fields that name a waiting task: how it is read and written.
pub record Waiter : Type 0 where
  pub who : IoQueue → Ptr
  pub put : Ptr → IoQueue → IoQueue

abbrev pub producer_field : Waiter
producer_field = record { who = λ q. q.producer; put = λ t q. record q { producer = t } }

abbrev pub consumer_field : Waiter
consumer_field = record { who = λ q. q.consumer; put = λ t q. record q { consumer = t } }

-- The address of a field is not NULL.
unfoldable pub ioq_wait : Waiter → Cmd Device Unit₀
ioq_wait waiter = do
  ioq ← get_queue
  assert (waiter.who ioq == null)
  (λ d. modify_queue (waiter.put d.store.current_task) d)
  on_store (task_block task_blocked)

unfoldable pub wakeup : ℕ → Waiter → Cmd Device Unit₀
wakeup rounds waiter = do
  ioq ← get_queue
  assert (not (waiter.who ioq == null))
  on_store (task_unblock rounds (waiter.who ioq))
  modify_queue (waiter.put null)

-- `buf[i]`, and a write to it
abbrev found : Option ℕ → Cmd Device ℕ
found (some b) = pure b
found none = λ _. fault

abbrev pub read_buf : ℕ → Cmd Device ℕ
read_buf i d = found (get_elem? d.queue.buf i) d

abbrev pub write_buf : ℕ → ℕ → Cmd Device Unit₀
write_buf i b d =
    if ltb i (length d.queue.buf)
    then modify_queue (λ q. record q { buf = set q.buf i b }) d
    else fault

-- what `ioq_getchar` does with a queue that is not empty
unfoldable pub take_char : ℕ → Cmd Device ℕ
take_char rounds = do
  ioq ← get_queue
  byte ← read_buf ioq.tail
  modify_queue (λ q. record q { tail = next_pos q.tail })
  if not (ioq.producer == null) then wakeup rounds producer_field else pure tt
  pure byte

-- The loop takes at most as many rounds as the first argument says.
unfoldable pub ioq_getchar : ℕ → ℕ → Cmd Device ℕ
ioq_getchar zero rounds = λ _. out_of_fuel
ioq_getchar (suc k) rounds = do
  ioq ← get_queue
  if ioq_empty ioq
      then (do
        on_store (lock_acquire rounds ioq.lock)
        ioq_wait consumer_field
        on_store (lock_release rounds ioq.lock)
        ioq_getchar k rounds)
      else take_char rounds

-- what `ioq_putchar` does with a queue that is not full
unfoldable pub give_char : ℕ → ℕ → Cmd Device Unit₀
give_char rounds byte = do
  ioq ← get_queue
  write_buf ioq.head byte
  modify_queue (λ q. record q { head = next_pos q.head })
  if not (ioq.consumer == null) then wakeup rounds consumer_field else pure tt

unfoldable pub ioq_putchar : ℕ → ℕ → (byte : ℕ) → Cmd Device Unit₀
ioq_putchar zero rounds byte = λ _. out_of_fuel
ioq_putchar (suc k) rounds byte = do
  ioq ← get_queue
  if ioq_full ioq
      then (do
        on_store (lock_acquire rounds ioq.lock)
        ioq_wait producer_field
        on_store (lock_release rounds ioq.lock)
        ioq_putchar k rounds byte)
      else give_char rounds byte

-- The differences are in range: the second one is taken where `head` is below `tail`.
abbrev pub ioq_length : IoQueue → ℕ
ioq_length ioq =
    if leb ioq.tail ioq.head then ioq.head - ioq.tail else bufsize - (ioq.tail - ioq.head)
