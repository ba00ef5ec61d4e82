-- ===== src/Sync/Tests.antt =====
-- Two tasks that call a lock of thread/sync.c.
use seeking_os.Prelude.{ℕ, ◌≡◌, refl, ◌⊎◌, inl, true, [], ◌∷◌, arith, ok}
use seeking_os.Sync.{
  is_downing, Place, System, set_place, sema_init, lock_init, sema_down, lock_acquire, lock_taken,
}
use seeking_os.Sync.Mutex.{owns}
use seeking_os.Sync.Runs.{
  acquire, down, take, Reached, start, move, initial, mutual_exclusion, moves_succeed,
  no_lost_wakeup,
}

-- Task 1 gets the semaphore, and task 2 sleeps on it.
abbrev one_calls : System
one_calls = set_place initial 1 Place.downing

abbrev one_took : System
one_took =
    set_place
      (record one_calls {
        lock = record one_calls.lock { semaphore = record { value = 0; waiters = [] } };
      })
      1 Place.took

abbrev two_calls : System
two_calls = set_place one_took 2 Place.downing

abbrev two_sleeps : System
two_sleeps =
    set_place
      (record two_calls {
        lock = record two_calls.lock { semaphore = record { value = 0; waiters = 2 ∷ [] } };
      })
      2 Place.asleep

two_sleeps-Reached : Reached two_sleeps
unfolding lock_acquire lock_init sema_init sema_down
two_sleeps-Reached =
    move (sema_down 2)
      (move (lock_acquire 2)
        (move (sema_down 1) (move (lock_acquire 1) start (acquire 1 (inl refl) (omega arith)) refl)
          (down 1 refl) refl)
        (acquire 2 (inl refl) (omega arith)) refl)
      (down 2 refl) refl

mutual_exclusion_example : ◌≡◌ {A = ℕ} 1 1
mutual_exclusion_example = mutual_exclusion two_sleeps 1 1 two_sleeps-Reached refl refl

moves_succeed_example : (s : System) × (lock_taken 1 two_sleeps ≡ ok s)
moves_succeed_example = moves_succeed two_sleeps (lock_taken 1) two_sleeps-Reached (take 1 refl)

no_lost_wakeup_example :
    (t : ℕ) × ((owns (two_sleeps.place t) ≡ true) ⊎ (is_downing (two_sleeps.place t) ≡ true))
no_lost_wakeup_example = no_lost_wakeup two_sleeps two_sleeps-Reached (λ e. cc)
