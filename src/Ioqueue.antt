-- ===== src/Ioqueue.antt =====
-- ioqueue.h and ioqueue.c: the ring between a producer and a consumer, used by the keyboard and by
-- pipes. A call runs with interrupts off until it returns or its thread goes to sleep, so it is cut
-- there: an attempt returns, or finds the queue's lock held by another thread, or leaves its thread
-- asleep as the queue's waiter. A thread that wakes goes through `resume`. Threads are named by
-- their PCBs' addresses, 0 is NULL. Of struct lock only the holder matters here; Sync has the rest.
pub mod Ring
pub mod Transfer
mod Tests
use ukernel.Prelude.{
  ℕ, zero, suc, ◌+◌, ◌-◌, ◌%◌, Bool, true, false, not, List, [], ◌∷◌, leb, ◌==◌, if◌then◌else◌,
  update, Outcome, ret, ◌>>=◌, ◌>>◌, assert,
}

abbrev pub bufsize : ℕ
bufsize = 4096

-- struct ioqueue
pub record Ioqueue : Type 0 where
  pub lock_holder : ℕ
  pub producer : ℕ
  pub consumer : ℕ
  pub buf : ℕ → ℕ
  pub head : ℕ
  pub tail : ℕ

-- ioqueue_init leaves the bytes of `buf` as they are
unfoldable pub ioqueue_init : (memory : ℕ → ℕ) → Ioqueue
ioqueue_init memory = record {
  lock_holder = 0;
  producer = 0;
  consumer = 0;
  buf = memory;
  head = 0;
  tail = 0;
}

abbrev pub next_pos : ℕ → ℕ
next_pos pos = (pos + 1) % bufsize

unfoldable pub ioq_full : Ioqueue → Bool
ioq_full q = next_pos q.head == q.tail

unfoldable pub ioq_empty : Ioqueue → Bool
ioq_empty q = q.head == q.tail

-- how an attempt ends: with a result and the thread that it woke (0 for none), at the queue's lock,
-- or asleep
pub data Attempt (A : Type 0) : Type 0 where
  returned : A → (woken : ℕ) → Ioqueue → Attempt A
  at_lock : Attempt A
  sleeping : Ioqueue → Attempt A

abbrev pub lock_free : ℕ → Ioqueue → Bool
lock_free me q = if q.lock_holder == 0 then true else q.lock_holder == me

-- lock_acquire, then ioq_wait on the consumer's place
unfoldable pub wait_as_consumer : {A : Type 0} → ℕ → Ioqueue → Outcome (Attempt A)
wait_as_consumer me q =
    if lock_free me q
    then (do
      assert (q.consumer == 0)
      ret (sleeping (record q { lock_holder = me; consumer = me })))
    else ret at_lock

unfoldable pub wait_as_producer : {A : Type 0} → ℕ → Ioqueue → Outcome (Attempt A)
wait_as_producer me q =
    if lock_free me q
    then (do
      assert (q.producer == 0)
      ret (sleeping (record q { lock_holder = me; producer = me })))
    else ret at_lock

-- ioq_getchar up to its return or its sleep, interrupts as given
unfoldable pub ioq_getchar : (intr_on : Bool) (me : ℕ) → Ioqueue → Outcome (Attempt ℕ)
unfolding ioq_empty wait_as_consumer
ioq_getchar intr_on me q = do
  assert (not intr_on)
  if ioq_empty q
      then wait_as_consumer me q
      else ret
          (returned (q.buf q.tail) q.producer (record q { tail = next_pos q.tail; producer = 0 }))

unfoldable pub ioq_putchar : (intr_on : Bool) (me byte : ℕ) → Ioqueue → Outcome (Attempt (Unit {0}))
unfolding ioq_full wait_as_producer
ioq_putchar intr_on me byte q = do
  assert (not intr_on)
  if ioq_full q
      then wait_as_producer me q
      else ret (
          returned tt q.consumer
            (record q { buf = update q.buf q.head byte; head = next_pos q.head; consumer = 0 }))

-- lock_release after the sleep; the loop's test follows, which is the next attempt
unfoldable pub resume : Ioqueue → Ioqueue
resume q = record q { lock_holder = 0 }

unfoldable pub ioq_length : Ioqueue → ℕ
ioq_length q = if leb q.tail q.head then q.head - q.tail else bufsize - (q.tail - q.head)
