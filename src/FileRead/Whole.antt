-- ===== src/FileRead/Whole.antt =====
-- `file_read` as a whole.
use seeking_os.Prelude.{
  ℕ, ◌+◌, ◌-◌, ◌*◌, ◌/◌, ◌^◌, ◌≤◌, ◌<◌, ◌≡◌, refl, ◌≢◌, arith, true, false, ◌&&◌, some, Memory, ok,
  ◌==◌, ltb, leb, if◌then◌else◌, add32,
}
use seeking_os.Str.Copy.{Apart}
use seeking_os.Inode.{Inode}
use seeking_os.FileRead.{read_size, file_read, blocks_to_read, read_chunks}
use seeking_os.FileRead.Bytes.{file_byte, blocks_to_read_lem}
use seeking_os.FileRead.Loop.{read_chunks_lem}

-- Up to the end of the file
abbrev pub readable : Inode → ℕ → ℕ → ℕ
readable inode pos count = if ltb inode.i_size (pos + count) then inode.i_size - pos else count

read_size_lem :
    (inode : Inode) (pos count : ℕ)
    → pos < inode.i_size
    → inode.i_size < 139 * 512
    → pos + count < 2 ^ 31
    → (read_size inode pos count ≡ readable inode pos count)
      × (pos + readable inode pos count ≤ inode.i_size)
      × ((ltb inode.i_size (add32 pos count) && readable inode pos count == 0) ≡ false)
unfolding read_size
read_size_lem inode pos count inside small word = ground arith

-- The parts of a run in order
file_read-parts :
    (n : ℕ) (disk : Memory) (inode : Inode) (pos : ℕ) (m : Memory) (buf count io : ℕ)
    (all_blocks : ℕ → ℕ) (size end : ℕ) (collected : ℕ → ℕ) (done : ℕ × Memory × ℕ)
    → read_size inode pos count ≡ size
    → (ltb inode.i_size (add32 pos count) && size == 0) ≡ false
    → add32 pos size / 512 ≡ end
    → (ltb (pos / 512) 139 && ltb end 139) ≡ true
    → blocks_to_read disk inode (pos / 512) end all_blocks ≡ ok collected
    → read_chunks n disk collected io m buf pos size 0 size ≡ ok done
    → file_read n disk inode pos m buf count (some io) (some all_blocks)
      ≡ ok (some done.0, done.1, done.2)
unfolding file_read
file_read-parts n disk inode pos m buf count io all_blocks size end collected done sized more last
      valid built ran =
    rw (sized, more, last, valid, built, ran) refl

-- From a position inside a file of less than 139 blocks, whose table is there if it needs one, for
-- a position and a count that are together below 2 GiB, and with buffers that are not NULL and
-- apart, `file_read` ends, with fuel beyond the bytes, and brings the bytes of the file from there
-- on, `count` of them or those up to its end, to the buffer, returns their number and moves on by
-- it; no other byte outside the two buffers has changed.
pub file_read_lem :
    (n : ℕ) (disk : Memory) (inode : Inode) (pos : ℕ) (m : Memory) (buf count io : ℕ)
    (all_blocks : ℕ → ℕ)
    → pos < inode.i_size
    → inode.i_size < 139 * 512
    → pos + count < 2 ^ 31
    → (12 * 512 ≤ inode.i_size → inode.i_sectors 12 ≢ 0)
    → 0 < io
    → 0 < buf
    → Apart buf (readable inode pos count) io 512
    → readable inode pos count < n
    → (m' : Memory) × (file_read n disk inode pos m buf count (some io) (some all_blocks)
        ≡ ok (some (readable inode pos count), m', pos + readable inode pos count))
      × ((k : ℕ) → k < readable inode pos count → m' (buf + k) ≡ file_byte disk inode (pos + k))
      × ((a : ℕ)
          → (leb buf a && ltb a (buf + readable inode pos count)) ≡ false
          → (leb io a && ltb a (io + 512)) ≡ false
          → m' a ≡ m a)
file_read_lem n disk inode pos m buf count io all_blocks inside small word table pi pb apart fuel =
    let size = readable inode pos count in
    let (sized, within, some_) = read_size_lem inode pos count inside small word in
    let end : add32 pos size / 512 ≡ (pos + size) / 512 = ground (arith, within) in
    let valid : (ltb (pos / 512) 139 && ltb ((pos + size) / 512) 139) ≡ true =
      ground (arith, within) in
    let (collected, built, blocks) =
      blocks_to_read_lem disk inode (pos / 512) ((pos + size) / 512) all_blocks (omega arith)
        (omega (arith, within)) (λ far. table (omega (arith, within))) in
    let (m', ran, bytes, same) =
      read_chunks_lem n disk collected io m buf pos size 0 size pi pb apart (omega arith)
        (omega (arith, within), omega (arith, within)) fuel in
    (
      m',
      file_read-parts n disk inode pos m buf count io all_blocks size ((pos + size) / 512) collected
          (size, m', pos + size) sized some_ end valid built ran,
      λ k lt.
          let got = bytes k lt in
          let block = blocks ((pos + k) / 512) (omega arith) (omega arith) in rw (got, block) refl,
      same,
    )
