-- ===== src/IoQueue.antt =====
-- device/ioqueue.c and ioqueue.h: the ring of bytes behind the keyboard and the pipes.
-- A task is its number, and `none` is the NULL of `producer` and `consumer`. The lock is held while its
-- task sleeps in `ioq_wait`. With interrupts off a call is cut only where its task sleeps: in the
-- `lock_acquire` of a lock that another task holds, from where `consumer_locked` and `producer_locked`
-- go on, and in `ioq_wait`, from where `ioq_waited` goes on, with a new pass through the `while` behind it.
pub mod Locking
pub mod Ring
pub mod Contents
pub mod Wakeup
mod Tests
use seeking_os.Prelude.{
  ℕ, ◌+◌, ◌-◌, ◌%◌, Bool, true, false, Option, none, some, List, [], ◌∷◌, Memory, store, ◌==◌, leb,
  if◌then◌else◌, Outcome, ok, panic, out_of_fuel, ◌>>=◌,
}
use seeking_os.Thread.Queue.{elem_find}
use seeking_os.Sync.{
  Lock, System, Place, lock_init, lock_acquire, lock_taken, lock_release, sema_down, sema_up,
  is_downing, is_waiting, is_upping,
}

abbrev pub bufsize : ℕ
bufsize = 2048

pub record IoQueue : Type 0 where
  pub lock : Lock
  pub producer : Option ℕ
  pub consumer : Option ℕ
  pub buf : Memory
  pub head : ℕ
  pub tail : ℕ

-- `done` has the result, the queue and the tasks given to `thread_unblock`; `sleeps` is a task that
-- waits in `ioq_wait`, `locked_out` one that waits for the lock; `failed` is an ASSERT that does not hold.
pub data Call (A : Type 0) : Type 0 where
  done : A → IoQueue → List ℕ → Call A
  sleeps : IoQueue → Call A
  locked_out : IoQueue → Call A
  failed : Call A

unfoldable pub ioqueue_init : IoQueue → IoQueue
ioqueue_init ioq = record ioq {
  lock = lock_init;
  producer = none;
  consumer = none;
  head = 0;
  tail = 0;
}

abbrev pub next_pos : ℕ → ℕ
next_pos pos = (pos + 1) % bufsize

unfoldable pub ioq_full : IoQueue → Bool
ioq_full ioq = next_pos ioq.head == ioq.tail

unfoldable pub ioq_empty : IoQueue → Bool
ioq_empty ioq = ioq.head == ioq.tail

-- `ioq_wait(&ioq->consumer)` and `ioq_wait(&ioq->producer)`, called by the task `cur`
wait_consumer : {A : Type 0} → ℕ → IoQueue → Call A
wait_consumer cur ioq = elim ioq.consumer [
  | none ↦ sleeps (record ioq { consumer = some cur })
  | some _ ↦ failed
]

wait_producer : {A : Type 0} → ℕ → IoQueue → Call A
wait_producer cur ioq = elim ioq.producer [
  | none ↦ sleeps (record ioq { producer = some cur })
  | some _ ↦ failed
]

-- `if (ioq->producer) wakeup(&ioq->producer);` and the same for the consumer
wakeup_producer : {A : Type 0} → A → IoQueue → Call A
wakeup_producer a ioq = elim ioq.producer [
  | none ↦ done a ioq []
  | some t ↦ done a (record ioq { producer = none }) (t ∷ [])
]

wakeup_consumer : {A : Type 0} → A → IoQueue → Call A
wakeup_consumer a ioq = elim ioq.consumer [
  | none ↦ done a ioq []
  | some t ↦ done a (record ioq { consumer = none }) (t ∷ [])
]

-- The tasks of a lock, of which those among its waiters sleep there
abbrev pub tasks_of : Lock → System
tasks_of lock = record {
  lock = lock;
  place = λ u. if elem_find lock.semaphore.waiters u then Place.asleep else Place.outside;
}

-- `lock_acquire` behind a pass of `sema_down`: whether the task has the lock
unfoldable pub behind_down : ℕ → System → Outcome (Bool × Lock)
behind_down cur s = elim (is_waiting (s.place cur)) [
  | true ↦ ok (false, s.lock)
  | false ↦ (do s' ← lock_taken cur s; ok (true, s'.lock))
]

-- `lock_acquire(&ioq->lock)`, whose parts run without a break
unfoldable pub acquire : ℕ → Lock → Outcome (Bool × Lock)
acquire cur lock = do
  s ← lock_acquire cur (tasks_of lock)
  elim (is_downing (s.place cur)) [
    | true ↦ (do s' ← sema_down cur s; behind_down cur s')
    | false ↦ ok (true, s.lock)
  ]

-- Where its task was woken in `sema_down`
unfoldable pub acquire_again : ℕ → Lock → Outcome (Bool × Lock)
acquire_again cur lock = do s ← sema_down cur (tasks_of lock); behind_down cur s

abbrev pub first_of : List ℕ → List ℕ
first_of [] = []
first_of (t ∷ rest) = t ∷ []

-- `lock_release(&ioq->lock)`, and the tasks that it wakes
unfoldable pub release : ℕ → Lock → Outcome (Lock × List ℕ)
release cur lock = do
  s ← lock_release cur (tasks_of lock)
  elim (is_upping (s.place cur)) [
    | true ↦ (do s' ← sema_up cur s; ok (s'.lock, first_of s.lock.semaphore.waiters))
    | false ↦ ok (s.lock, [])
  ]

-- `ioq_wait` behind a `lock_acquire` that has the lock
wait_locked : {A : Type 0} → Outcome (Bool × Lock) → IoQueue → (IoQueue → Call A) → Call A
wait_locked (ok (got, lock)) ioq wait =
    if got then wait (record ioq { lock = lock }) else locked_out (record ioq { lock = lock })
wait_locked panic ioq wait = failed
wait_locked out_of_fuel ioq wait = failed

unfoldable pub consumer_locked : ℕ → IoQueue → Call ℕ
unfolding wait_consumer wait_locked
consumer_locked cur ioq = wait_locked (acquire_again cur ioq.lock) ioq (wait_consumer cur)

unfoldable pub producer_locked : ℕ → IoQueue → Call (Unit {0})
unfolding wait_producer wait_locked
producer_locked cur ioq = wait_locked (acquire_again cur ioq.lock) ioq (wait_producer cur)

-- Behind `ioq_wait`
unfoldable pub ioq_waited : ℕ → IoQueue → Call (Unit {0})
ioq_waited cur ioq = elim (release cur ioq.lock) [
  | ok released ↦ done tt (record ioq { lock = released.0 }) (released.1)
  | panic ↦ failed
  | out_of_fuel ↦ failed
]

-- `intr_on` is whether interrupts are on, which each of these calls and its tests assert not to be.
unfoldable pub ioq_getchar : Bool → ℕ → IoQueue → Call ℕ
unfolding wait_consumer wakeup_producer wait_locked
ioq_getchar intr_on cur ioq =
    if intr_on
    then failed
    else if ioq_empty ioq
    then wait_locked (acquire cur ioq.lock) ioq (wait_consumer cur)
    else wakeup_producer (ioq.buf ioq.tail) (record ioq { tail = next_pos ioq.tail })

unfoldable pub ioq_putchar : Bool → ℕ → IoQueue → ℕ → Call (Unit {0})
unfolding wait_producer wakeup_consumer wait_locked
ioq_putchar intr_on cur ioq byte =
    if intr_on
    then failed
    else if ioq_full ioq
    then wait_locked (acquire cur ioq.lock) ioq (wait_producer cur)
    else wakeup_consumer tt
        (record ioq { buf = store ioq.buf ioq.head byte; head = next_pos ioq.head })

unfoldable pub ioq_lenth : IoQueue → ℕ
ioq_lenth ioq =
    if leb ioq.tail ioq.head then ioq.head - ioq.tail else bufsize - (ioq.tail - ioq.head)
