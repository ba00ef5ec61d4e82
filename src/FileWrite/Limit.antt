-- ===== src/FileWrite/Limit.antt =====
-- What `file_write` does at the largest size of a file.
use seeking_os.Prelude.{
  ℕ, ◌+◌, ◌/◌, ◌^◌, ◌<◌, ◌≤◌, ◌≡◌, refl, ◌≢◌, arith, true, false, some, none, Memory, ok, panic,
  ◌==◌, ltb, leb, if◌then◌else◌, add32, Bool-cases, inl, inr,
}
use seeking_os.FileWrite.{Layout, Written, file_write, first_block, max_file_size}

-- With a first block and with buffers, and a size that with the count stays below 4 GiB,
-- `file_write` beyond 140 blocks returns -1 and changes nothing, but for a file that would just
-- reach the largest size an ASSERT stops the machine.
pub file_write-limit :
    (n : ℕ) (lay : Layout) (w : Written) (m : Memory) (buf count io : ℕ) (blocks : ℕ → ℕ)
    → (w.inode).i_size + count < 2 ^ 32
    → max_file_size ≤ (w.inode).i_size + count
    → (w.inode).i_sectors 0 ≢ 0
    → file_write n lay w m buf count (some io) (some blocks)
      ≡ (if ltb max_file_size ((w.inode).i_size + count) then ok (none, w) else panic)
unfolding file_write first_block
file_write-limit n lay w m buf count io blocks word large first =
    let has : ((w.inode).i_sectors 0 == 0) ≡ false = ground (arith, first) in
    let sum : add32 (w.inode).i_size count ≡ (w.inode).i_size + count = ground arith in
    elim (Bool-cases (ltb max_file_size ((w.inode).i_size + count))) [
      | inl above ↦
          let over : ltb max_file_size (add32 (w.inode).i_size count) ≡ true = rw sum above in
          rw (over, above) refl
      | inr full ↦
          let fits : ltb max_file_size (add32 (w.inode).i_size count) ≡ false = rw sum full in
          let many : leb (add32 (w.inode).i_size count / 512 + 1) 140 ≡ false = ground arith in
          rw (fits, full, has, many) refl
    ]
