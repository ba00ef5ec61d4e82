-- ===== src/Pids/Tests.antt =====
-- The pool of thread/thread.c after its initialisation.
use seeking_os.Prelude.{ℕ, ◌≡◌, refl, true, false, arith, ok, ◌==◌, if◌then◌else◌}
use seeking_os.Bitmap.{bitmap_scan_test}
use seeking_os.Bitmap.Byte.{bit_of}
use seeking_os.Pids.{PidPool, allocate_pid, release_pid}
use seeking_os.Pids.Fresh.{in_use, InRange, IsPool, allocate_then_release}

abbrev pool : PidPool
pool = record { pid_bitmap = record { btmp_bytes_len = 128; bits = λ a. 0 }; pid_start = 1 }

pool-IsPool : IsPool pool
pool-IsPool = record {
  valid = record { bytes = λ a. omega arith; small = omega arith };
  small = omega arith;
}

allocate_then_release_example :
    (pid : ℕ) × (taken : PidPool) × (back : PidPool) × (allocate_pid pool ≡ ok (pid, taken))
    × InRange pool pid
    × (in_use pool pid ≡ false)
    × ((other : ℕ)
        → InRange pool other
        → in_use taken other ≡ (if pid == other then true else in_use pool other))
    × (release_pid taken pid ≡ ok back)
    × ((other : ℕ) → InRange pool other → in_use back other ≡ in_use pool other)
unfolding bitmap_scan_test bit_of
allocate_then_release_example =
    allocate_then_release pool 1 pool-IsPool (omega arith, omega arith) refl
