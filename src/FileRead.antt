-- ===== src/FileRead.antt =====
-- fs/file.c: `file_read`, from the inode of a file and the bytes of the disk to a buffer in memory.
-- `io_buf` and `all_blocks` are what `sys_malloc` gives, `none` for NULL; `all_blocks` is the array of
-- words that it holds then. The transfers are of one sector.
pub mod Bytes
pub mod Loop
pub mod Whole
mod Tests
use seeking_os.Prelude.{
  ℕ, zero, suc, ◌+◌, ◌-◌, ◌*◌, ◌/◌, ◌%◌, ◌^◌, Bool, true, false, not, ◌&&◌, Option, none, some,
  Memory, Outcome, ok, panic, out_of_fuel, assert, ◌>>=◌, ◌>>◌, ◌==◌, ltb, leb, if◌then◌else◌,
  add32, sub32,
}
use seeking_os.Str.{fill, memcpy}
use seeking_os.Inode.{Inode, read_sectors, word_at, sector_size}

-- `ide_read(cur_part->mydisk, indirect_block_table, all_blocks + 12, 1)`
unfoldable pub read_table : Memory → ℕ → (ℕ → ℕ) → ℕ → ℕ
read_table disk lba all_blocks i =
    if leb 12 i && ltb i 140 then word_at disk (lba * sector_size) (i - 12) else all_blocks i

-- The loops that copy block addresses of the inode, with those to go
unfoldable pub copy_sectors : ℕ → Inode → ℕ → (ℕ → ℕ) → ℕ → ℕ
copy_sectors zero inode block_idx all_blocks = all_blocks
copy_sectors (suc n) inode block_idx all_blocks =
    copy_sectors n inode (block_idx + 1)
      λ i. if i == block_idx then inode.i_sectors block_idx else all_blocks i

-- The part of `file_read` that builds `all_blocks`
unfoldable pub blocks_to_read : Memory → Inode → ℕ → ℕ → (ℕ → ℕ) → Outcome (ℕ → ℕ)
blocks_to_read disk inode start end all_blocks =
    let table = read_table disk (inode.i_sectors 12) in
    if sub32 end start == 0
    then (if ltb end 12 then ok (copy_sectors 1 inode end all_blocks) else ok (table all_blocks))
    else if ltb end 12
    then ok (copy_sectors (end + 1 - start) inode start all_blocks)
    else (do
      assert (not (inode.i_sectors 12 == 0))
      ok (
          table (
            if ltb start 12 then copy_sectors (12 - start) inode start all_blocks else all_blocks)))

-- How much of a sector the next round moves
unfoldable pub chunk_size : ℕ → ℕ → ℕ
chunk_size size_left sec_off_bytes =
    let sec_left_bytes = sector_size - sec_off_bytes in
    if ltb size_left sec_left_bytes then size_left else sec_left_bytes

-- The loop of `file_read`: what it has read, the memory and the position
unfoldable pub read_chunks :
    ℕ → Memory → (ℕ → ℕ) → ℕ → Memory → ℕ → ℕ → ℕ → ℕ → ℕ → Outcome (ℕ × Memory × ℕ)
read_chunks zero disk all_blocks io_buf m buf_dst fd_pos size bytes_read size_left = out_of_fuel
read_chunks (suc n) disk all_blocks io_buf m buf_dst fd_pos size bytes_read size_left =
    let sec_lba = all_blocks (fd_pos / sector_size) in
    let sec_off_bytes = fd_pos % sector_size in
    let chunk = chunk_size size_left sec_off_bytes in
    let m₁ = read_sectors disk sec_lba (fill m io_buf 0 sector_size) io_buf 1 in
    let round = memcpy m₁ buf_dst (io_buf + sec_off_bytes) chunk >>= λ m₂.
    read_chunks n disk all_blocks io_buf m₂ (buf_dst + chunk) (add32 fd_pos chunk) size
      (add32 bytes_read chunk) (sub32 size_left chunk) in
    if ltb bytes_read size then round else (do assert (size_left == 0); ok (bytes_read, m, fd_pos))

-- The number of bytes that there are to read
unfoldable pub read_size : Inode → ℕ → ℕ → ℕ
read_size inode fd_pos count =
    if ltb inode.i_size (add32 fd_pos count) then sub32 inode.i_size fd_pos else count

-- The result, with `none` for -1, the memory and the position
unfoldable pub file_read :
    ℕ
    → Memory
    → Inode
    → ℕ
    → Memory
    → ℕ
    → ℕ
    → Option ℕ
    → Option (ℕ → ℕ)
    → Outcome (Option ℕ × Memory × ℕ)
file_read n disk inode fd_pos m buf count io_buf all_blocks =
    let size = read_size inode fd_pos count in
    if ltb inode.i_size (add32 fd_pos count) && size == 0
    then ok (none, m, fd_pos)
    else elim io_buf [
      | none ↦ ok (none, m, fd_pos)
      | some io ↦ elim all_blocks [
        | none ↦ ok (none, m, fd_pos)
        | some blocks ↦ (do
          let start = fd_pos / sector_size
          let end = add32 fd_pos size / sector_size
          assert (ltb start 139 && ltb end 139)
          collected ← blocks_to_read disk inode start end blocks
          done ← read_chunks n disk collected io m buf fd_pos size 0 size
          ok (some done.0, done.1, done.2))
      ]
    ]
