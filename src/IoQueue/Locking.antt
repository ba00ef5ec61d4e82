-- ===== src/IoQueue/Locking.antt =====
-- What `lock_acquire` and `lock_release` around `ioq_wait` do to the lock of a ring.
use seeking_os.Prelude.{
  ℕ, ◌≡◌, ◌≢◌, true, false, none, some, List, [], ◌∷◌, arith, ok, ◌==◌, ==-refl,
}
use seeking_os.Thread.Queue.{elem_find, list_append}
use seeking_os.Sync.{Lock, lock_acquire, lock_taken, lock_release, sema_down, sema_up, wake_first}
use seeking_os.IoQueue.{behind_down, acquire, acquire_again, release, first_of}

-- The lock that nobody holds, and the one that `u` holds, with tasks that wait for it
abbrev pub free_lock : List ℕ → Lock
free_lock ws = record {
  holder = none;
  semaphore = record { value = 1; waiters = ws };
  holder_repeat_nr = 0;
}

abbrev pub held_lock : ℕ → List ℕ → Lock
held_lock u ws = record {
  holder = some u;
  semaphore = record { value = 0; waiters = ws };
  holder_repeat_nr = 1;
}

abbrev pub tail_of : List ℕ → List ℕ
tail_of [] = []
tail_of (t ∷ rest) = rest

pub again_free :
    (cur : ℕ) (ws : List ℕ) → acquire_again cur (free_lock ws) ≡ ok (true, held_lock cur ws)
unfolding acquire_again sema_down behind_down lock_taken
again_free cur ws = let self = ==-refl cur in ground (arith, self)

pub acquire_free :
    (cur : ℕ) (ws : List ℕ) → acquire cur (free_lock ws) ≡ ok (true, held_lock cur ws)
unfolding acquire lock_acquire sema_down behind_down lock_taken
acquire_free cur ws = let self = ==-refl cur in ground (arith, self)

pub again_held :
    (cur u : ℕ) (ws : List ℕ)
    → elem_find ws cur ≡ false
    → acquire_again cur (held_lock u ws) ≡ ok (false, held_lock u (list_append ws cur))
unfolding acquire_again sema_down behind_down
again_held cur u ws out = let self = ==-refl cur in ground (arith, self, out)

pub acquire_held :
    (cur u : ℕ) (ws : List ℕ)
    → u ≢ cur
    → elem_find ws cur ≡ false
    → acquire cur (held_lock u ws) ≡ ok (false, held_lock u (list_append ws cur))
unfolding acquire lock_acquire sema_down behind_down
acquire_held cur u ws other out =
    let self = ==-refl cur in
    let apart : (u == cur) ≡ false = ground arith in ground (arith, self, out, apart)

pub release_lem :
    (cur : ℕ) (ws : List ℕ)
    → elem_find ws cur ≡ false
    → release cur (held_lock cur ws) ≡ ok (free_lock (tail_of ws), first_of ws)
unfolding release lock_release sema_up wake_first
release_lem cur [] out = let self = ==-refl cur in ground (arith, self)
release_lem cur (t ∷ rest) out =
    let self = ==-refl cur in let first = ==-refl t in ground (arith, self, first, out)
