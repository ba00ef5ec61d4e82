-- ===== src/IoQueue/Wakeup.antt =====
-- Whoever sleeps in `ioq_wait` has the lock of the ring, so no two tasks sleep there.
use seeking_os.Prelude.{ℕ, ◌≡◌, ◌≢◌, ◌⊎◌, false, Option, none, some, List}
use seeking_os.Thread.Queue.{elem_find}
use seeking_os.IoQueue.{
  IoQueue, Call, done, sleeps, locked_out, failed, ioq_getchar, ioq_putchar, consumer_locked,
  producer_locked, ioq_waited,
}
use seeking_os.IoQueue.Locking.{free_lock, held_lock}
use seeking_os.IoQueue.Contents.{IsValid}

-- The task `u`, or none, is noted as the consumer or as the producer, and nobody else.
abbrev pub Noted : IoQueue → ℕ → Type 0
Noted ioq u =
    ((ioq.consumer ≡ none) × (ioq.producer ≡ none))
    ⊎ (((ioq.consumer ≡ some u) × (ioq.producer ≡ none))
        ⊎ ((ioq.consumer ≡ none) × (ioq.producer ≡ some u)))

-- While nobody has the lock, nobody is noted; else the task that has it may be, which does not wait for
-- the lock.
pub record Sleepers (ioq : IoQueue) : Type 0 where
  pub valid : IsValid ioq
  pub lock_held :
      ((ws : List ℕ) × (ioq.lock ≡ free_lock ws) × (ioq.consumer ≡ none) × (ioq.producer ≡ none))
      ⊎ ((u : ℕ) × (ws : List ℕ) × (ioq.lock ≡ held_lock u ws)
          × (elem_find ws u ≡ false)
          × Noted ioq u)

-- The ring that a call leaves, if no ASSERT fails in it
abbrev pub ring_of : {A : Type 0} → Call A → Option IoQueue
ring_of (done a ioq woken) = some ioq
ring_of (sleeps ioq) = some ioq
ring_of (locked_out ioq) = some ioq
ring_of failed = none

-- The task neither has the lock nor waits for it.
abbrev pub IsOutside : ℕ → IoQueue → Type 0
IsOutside cur ioq =
    (ioq.lock.holder ≢ some cur) × (elem_find ioq.lock.semaphore.waiters cur ≡ false)

-- What may run next: a pass of a task from outside, one that was woken from waiting for the lock, or the end
-- of the sleep of the task that has the lock, once it is not noted any more
pub data Pass (ioq : IoQueue) : Option IoQueue → Type 0 where
  get : (cur : ℕ) → IsOutside cur ioq → Pass ioq (ring_of (ioq_getchar false cur ioq))
  insert : (cur byte : ℕ) → IsOutside cur ioq → Pass ioq (ring_of (ioq_putchar false cur ioq byte))
  get_locked : (cur : ℕ) → IsOutside cur ioq → Pass ioq (ring_of (consumer_locked cur ioq))
  put_locked : (cur : ℕ) → IsOutside cur ioq → Pass ioq (ring_of (producer_locked cur ioq))
  waited :
      (cur : ℕ)
      → ioq.lock.holder ≡ some cur
      → ioq.consumer ≡ none
      → ioq.producer ≡ none
      → Pass ioq (ring_of (ioq_waited cur ioq))

abbrev Kept : {A : Type 0} → Call A → Type 0
Kept c = (ioq' : IoQueue) × (ring_of c ≡ some ioq') × Sleepers ioq'
