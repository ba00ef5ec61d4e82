-- ===== src/Pids.antt =====
-- thread/thread.c: the pool of process numbers. The lock of the pool is taken around these calls.
pub mod Fresh
mod Tests
use seeking_os.Prelude.{
  ℕ, ◌+◌, ◌-◌, ◌%◌, ◌^◌, ltb, if◌then◌else◌, Option, none, some, Memory, Outcome, ok, panic, ◌>>=◌,
  add32, sub32,
}
use seeking_os.Bitmap.{Bitmap, bitmap_init, bitmap_scan, bitmap_set}

pub record PidPool : Type 0 where
  pub pid_bitmap : Bitmap
  pub pid_start : ℕ

-- `bits` is the array `pid_bitmap_bits`.
unfoldable pub pid_pool_init : Memory → PidPool
pid_pool_init bits = record {
  pid_bitmap = bitmap_init (record { btmp_bytes_len = 128; bits = bits });
  pid_start = 1;
}

-- `pid_t` is `int16_t`; this is the word that a number of that type stands for.
abbrev pub pid_t : ℕ → ℕ
pid_t pid = if ltb (pid % 2 ^ 16) (2 ^ 15) then pid % 2 ^ 16 else pid % 2 ^ 16 + 0xffff0000

unfoldable pub allocate_pid : PidPool → Outcome (ℕ × PidPool)
allocate_pid pool = do
  found ← bitmap_scan pool.pid_bitmap 1
  elim found [
    | none ↦ panic
    | some bit_idx ↦ (do
      btmp ← bitmap_set pool.pid_bitmap bit_idx 1
      ok (pid_t (add32 pool.pid_start bit_idx), record pool { pid_bitmap = btmp }))
  ]

unfoldable pub release_pid : PidPool → ℕ → Outcome PidPool
release_pid pool pid = do
  btmp ← bitmap_set pool.pid_bitmap (sub32 (pid_t pid) pool.pid_start) 0
  ok (record pool { pid_bitmap = btmp })
