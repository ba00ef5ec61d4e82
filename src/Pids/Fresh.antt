-- ===== src/Pids/Fresh.antt =====
-- A process number is in use from `allocate_pid` to `release_pid`.
use seeking_os.Prelude.{
  ℕ, ◌+◌, ◌*◌, ◌^◌, ◌≤◌, ◌<◌, ◌≡◌, ◌∙◌, Bool, true, false, arith, ok, ◌==◌, if◌then◌else◌, add32,
  sub32,
}
use seeking_os.Bitmap.{bitmap_scan_test}
use seeking_os.Bitmap.Scan.{IsValid}
use seeking_os.Bitmap.Set.{bitmap_set-Updated}
use seeking_os.Bitmap.Lowest.{bitmap_scan-IsLowest}
use seeking_os.Pids.{PidPool, pid_t, allocate_pid, release_pid}

-- The process number stands for a bit that is set.
abbrev pub in_use : PidPool → ℕ → Bool
in_use pool pid = bitmap_scan_test pool.pid_bitmap (sub32 pid pool.pid_start)

-- The numbers that a pool hands out.
abbrev pub InRange : PidPool → ℕ → Type 0
InRange pool pid =
    (pool.pid_start ≤ pid) × (pid < pool.pid_start + pool.pid_bitmap.btmp_bytes_len * 8)

pub record IsPool (pool : PidPool) : Type 0 where
  pub valid : IsValid pool.pid_bitmap
  pub small : pool.pid_start + pool.pid_bitmap.btmp_bytes_len * 8 ≤ 2 ^ 15

-- In a pool whose numbers are below 2^15, with one that is not in use, `allocate_pid` returns a
-- number that was not in use and is then, and `release_pid` of it leaves the numbers in use that
-- were so before.
pub allocate_then_release :
    (pool : PidPool) (free : ℕ)
    → IsPool pool
    → InRange pool free
    → in_use pool free ≡ false
    → (pid : ℕ) × (taken : PidPool) × (back : PidPool) × (allocate_pid pool ≡ ok (pid, taken))
      × InRange pool pid
      × (in_use pool pid ≡ false)
      × ((other : ℕ)
          → InRange pool other
          → in_use taken other ≡ (if pid == other then true else in_use pool other))
      × (release_pid taken pid ≡ ok back)
      × ((other : ℕ) → InRange pool other → in_use back other ≡ in_use pool other)
unfolding allocate_pid release_pid
allocate_then_release pool free p range unused =
    let small = p.small in
    let len = p.valid.small in
    let (i, found, lowest) =
      bitmap_scan-IsLowest pool.pid_bitmap (sub32 free pool.pid_start) p.valid
        (omega (arith, range.0, range.1)) unused in
    let (b, set, up) = bitmap_set-Updated pool.pid_bitmap i 1 p.valid (omega arith) in
    let (b', reset, down) = bitmap_set-Updated b i 0 up.valid (omega arith) in
    let inside = lowest.inside in
    let pid = pool.pid_start + i in
    let same : pid_t (add32 pool.pid_start i) ≡ pid = ground arith in
    let again : pid_t pid ≡ pid = ground arith in
    let index : sub32 pid pool.pid_start ≡ i = omega arith in
    (
      pid,
      record pool { pid_bitmap = b },
      record pool { pid_bitmap = b' },
      rw (found, set, same),
      (omega arith, omega arith),
      rw index lowest.is_free,
      λ other r. up.bit (sub32 other pool.pid_start) ∙ ground (arith, r.0, r.1),
      rw (again, index, reset),
      λ other r.
          down.bit (sub32 other pool.pid_start)
          ∙ ground (arith, up.bit (sub32 other pool.pid_start), lowest.is_free),
    )
