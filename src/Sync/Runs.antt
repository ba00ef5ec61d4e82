-- ===== src/Sync/Runs.antt =====
-- Any tasks that share a lock, their steps interleaved in any order.
use seeking_os.Prelude.{
  ok-injective, ℕ, ◌+◌, ◌^◌, ◌<◌, ◌≡◌, refl, ◌≢◌, ◌⊎◌, inl, inr, ◌∙◌, subst, sym, true, [], arith,
  Outcome, ok, Bool-cases, ◌==◌,
}
use seeking_os.Sync.{
  Place, System, lock_init, sema_init, sema_down, sema_up, lock_acquire, lock_taken, lock_release,
  is_downing,
}
use seeking_os.Sync.Mutex.{
  IsSound, owns, sema_down-IsSound, sema_up-IsSound, lock_acquire-IsSound, lock_taken-IsSound,
  lock_release-IsSound,
}

-- What a task may do next: it calls `lock_acquire`, whether or not it has the lock, and `lock_release`
-- if it has the lock; inside a call it goes on.
pub data Move (s : System) : (System → Outcome System) → Type 0 where
  acquire :
      (t : ℕ)
      → (s.place t ≡ Place.outside) ⊎ (s.place t ≡ Place.inside)
      → s.lock.holder_repeat_nr + 1 < 2 ^ 32
      → Move s (lock_acquire t)
  down : (t : ℕ) → is_downing (s.place t) ≡ true → Move s (sema_down t)
  take : (t : ℕ) → s.place t ≡ Place.took → Move s (lock_taken t)
  release : (t : ℕ) → s.place t ≡ Place.inside → Move s (lock_release t)
  up : (t : ℕ) → s.place t ≡ Place.upping → Move s (sema_up t)

-- No move fails an ASSERT, and each keeps the invariant.
Move-IsSound :
    (s : System) (f : System → Outcome System)
    → IsSound s
    → Move s f
    → (s' : System) × (f s ≡ ok s') × IsSound s'
Move-IsSound s f i (acquire t p few) = lock_acquire-IsSound t s i p few
Move-IsSound s f i (down t p) = sema_down-IsSound t s i p
Move-IsSound s f i (take t p) = lock_taken-IsSound t s i p
Move-IsSound s f i (release t p) = lock_release-IsSound t s i p
Move-IsSound s f i (up t p) = sema_up-IsSound t s i p

abbrev pub initial : System
unfolding lock_init
initial = record { lock = lock_init; place = λ t. Place.outside }

-- The states that moves lead to from `lock_init`.
pub data Reached : System → Type 0 where
  start : Reached initial
  move :
      {s s' : System} (f : System → Outcome System)
      → Reached s
      → Move s f
      → f s ≡ ok s'
      → Reached s'

initial-IsSound : IsSound initial
unfolding lock_init sema_init
initial-IsSound = record {
  free = λ h t. refl;
  binary = omega arith;
  owned = λ e. absurd (omega (arith, e));
  one = λ t u own. cc;
  held = λ t. refl;
  none_held = λ e. refl;
  some_held = λ h. absurd (h refl);
  waiting = λ t. refl;
  distinct = tt;
  on_its_way = λ h. absurd (h refl);
}

pub Reached-IsSound : {s : System} → Reached s → IsSound s
Reached-IsSound start = initial-IsSound
Reached-IsSound (move {s} f before m ran) =
    let (s', ran', i) = Move-IsSound s f (Reached-IsSound before) m in
    subst IsSound (ok-injective (sym ran' ∙ ran)) i

-- However the calls of the tasks interleave from `lock_init` on, at most one task is between its
-- `lock_acquire` and its `lock_release`, counting in those that have it and those that give it
-- back.
pub mutual_exclusion :
    (s : System) (t u : ℕ) → Reached s → owns (s.place t) ≡ true → owns (s.place u) ≡ true → t ≡ u
mutual_exclusion s t u r = (Reached-IsSound r).one t u

-- However the calls have interleaved from `lock_init` on, no next move fails an ASSERT of sync.c or
-- that of `thread_unblock` on the state of the task it wakes; a move is a `lock_acquire` from
-- outside of calls, nested fewer than 2^32 times, a `lock_release` by a task that has the lock, or
-- the next part of a call.
pub moves_succeed :
    (s : System) (f : System → Outcome System)
    → Reached s
    → Move s f
    → (s' : System) × (f s ≡ ok s')
moves_succeed s f r m = let (s', ran, i) = Move-IsSound s f (Reached-IsSound r) m in (s', ran)

-- However the calls have interleaved from `lock_init` on, if tasks sleep on the lock then a task
-- owns its semaphore, or one is in `sema_down` and about to try, be it woken or new.
pub no_lost_wakeup :
    (s : System)
    → Reached s
    → s.lock.semaphore.waiters ≢ []
    → (t : ℕ) × ((owns (s.place t) ≡ true) ⊎ (is_downing (s.place t) ≡ true))
no_lost_wakeup s r waiters =
    let i = Reached-IsSound r in
    elim (Bool-cases (s.lock.semaphore.value == 0)) [
      | inl low ↦ let (t, o) = i.owned (ground arith) in (t, inl o)
      | inr high ↦ let (t, d) = i.on_its_way waiters (ground arith) in (t, inr d)
    ]
