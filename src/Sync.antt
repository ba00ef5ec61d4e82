-- ===== src/Sync.antt =====
-- thread/sync.c: binary semaphores, and the locks that are built on them.
-- A task is its number. With interrupts off a call runs without a break up to `thread_block`, so a
-- call of `sema_down` is cut where its task sleeps, and a call of `lock_acquire` or `lock_release`
-- where interrupts may come in: before and behind the call of `sema_down` or `sema_up`.
pub mod Mutex
pub mod Runs
mod Tests
use seeking_os.Prelude.{
  ℕ, ◌+◌, ◌-◌, Bool, true, false, not, Option, none, some, List, [], ◌∷◌, Outcome, ok, panic,
  assert, ◌>>=◌, ◌>>◌, ◌==◌, ltb, if◌then◌else◌, add32, u8,
}
use seeking_os.Thread.Queue.{elem_find, list_append}

pub record Semaphore : Type 0 where
  pub value : ℕ
  pub waiters : List ℕ

-- `none` is the NULL of `holder`.
pub record Lock : Type 0 where
  pub holder : Option ℕ
  pub semaphore : Semaphore
  pub holder_repeat_nr : ℕ

unfoldable pub sema_init : ℕ → Semaphore
sema_init value = record { value = u8 value; waiters = [] }

unfoldable pub lock_init : Lock
lock_init = record { holder = none; semaphore = sema_init 1; holder_repeat_nr = 0 }

-- Where a task stands in a call: in no call and without the lock, in `sema_down`, asleep there, behind
-- `sema_down` in `lock_acquire`, in no call and with the lock, or before `sema_up` in `lock_release`.
pub data Place : Type 0 where
  outside downing asleep took inside upping : Place

-- The lock and its tasks
pub record System : Type 0 where
  pub lock : Lock
  pub place : ℕ → Place

abbrev pub set_place : System → ℕ → Place → System
set_place s t p = record s { place = λ u. if u == t then p else s.place u }

abbrev pub set_semaphore : System → Semaphore → System
set_semaphore s sem = record s { lock = record s.lock { semaphore = sem } }

abbrev pub is_downing : Place → Bool
is_downing Place.downing = true
is_downing _ = false

abbrev pub is_upping : Place → Bool
is_upping Place.upping = true
is_upping _ = false

abbrev pub is_waiting : Place → Bool
is_waiting Place.asleep = true
is_waiting _ = false

-- `plock->holder == running_thread()`
abbrev pub holds : Option ℕ → ℕ → Bool
holds none t = false
holds (some u) t = u == t

-- One pass of the loop of `sema_down` and, where it ends, what follows
unfoldable pub sema_down : ℕ → System → Outcome System
sema_down t s =
    let sem = s.lock.semaphore in
    if sem.value == 0
    then (do
      assert (not (elem_find sem.waiters t))
      let sem' = record sem { waiters = list_append sem.waiters t }
      ok (set_place (set_semaphore s sem') t Place.asleep))
    else (do
      assert (sem.value - 1 == 0)
      ok (set_place (set_semaphore s (record sem { value = sem.value - 1 })) t Place.took))

-- `if (!list_empty(&psem->waiters)) thread_unblock(list_pop(...))`: the first waiter makes a new pass.
-- `thread_unblock` asserts that it sleeps.
unfoldable pub wake_first : List ℕ → System → Outcome System
wake_first [] s = ok s
wake_first (first ∷ rest) s = do
  assert (is_waiting (s.place first))
  ok (set_place (set_semaphore s (record s.lock.semaphore { waiters = rest })) first Place.downing)

unfoldable pub sema_up : ℕ → System → Outcome System
sema_up t s = do
  assert (s.lock.semaphore.value == 0)
  s₁ ← wake_first s.lock.semaphore.waiters s
  let sem = s₁.lock.semaphore
  let value' = u8 (sem.value + 1)
  assert (value' == 1)
  ok (set_place (set_semaphore s₁ (record sem { value = value' })) t Place.outside)

-- `lock_acquire` up to `sema_down`
unfoldable pub lock_acquire : ℕ → System → Outcome System
lock_acquire t s =
    let lock = s.lock in
    if not (holds lock.holder t)
    then ok (set_place s t Place.downing)
    else ok (record s { lock = record lock { holder_repeat_nr = add32 lock.holder_repeat_nr 1 } })

-- `lock_acquire` behind `sema_down`
unfoldable pub lock_taken : ℕ → System → Outcome System
lock_taken t s = do
  let lock = record s.lock { holder = some t }
  assert (lock.holder_repeat_nr == 0)
  ok (set_place (record s { lock = record lock { holder_repeat_nr = 1 } }) t Place.inside)

-- `lock_release` up to `sema_up`
unfoldable pub lock_release : ℕ → System → Outcome System
lock_release t s = do
  let lock = s.lock
  assert (holds lock.holder t)
  if ltb 1 lock.holder_repeat_nr
      then ok (record s { lock = record lock { holder_repeat_nr = lock.holder_repeat_nr - 1 } })
      else (do
        assert (lock.holder_repeat_nr == 1)
        ok (
            set_place (record s { lock = record lock { holder = none; holder_repeat_nr = 0 } }) t
              Place.upping))
