-- ===== src/FileWrite.antt =====
-- fs/file.c: `file_write`, which allots blocks to a file and writes behind its end.
-- As in `FileRead`, `io_buf` and `all_blocks` are what `sys_malloc` gives; a failed allocation leaves
-- what was allotted before it.
pub mod Chunks
pub mod Append
pub mod Limit
mod Tests
use seeking_os.Prelude.{
  ℕ, zero, suc, ◌+◌, ◌-◌, ◌*◌, ◌/◌, ◌%◌, ◌^◌, Bool, true, false, not, ◌&&◌, Option, none, some,
  Memory, Outcome, ok, panic, out_of_fuel, assert, ◌>>=◌, ◌>>◌, ◌==◌, ltb, leb, if◌then◌else◌,
  add32, sub32,
}
use seeking_os.Bitmap.{Bitmap}
use seeking_os.Str.{fill, memcpy}
use seeking_os.Inode.{
  Inode, Partition, read_sectors, write_sectors, byte_of, inode_sync, sector_size,
}
use seeking_os.Files.{block_bitmap_alloc, bitmap_sync}
use seeking_os.FileRead.{read_table, chunk_size}

-- The fields of `struct super_block` that the allocation reads
pub record Layout : Type 0 where
  pub part : Partition
  pub data_start_lba : ℕ
  pub block_bitmap_lba : ℕ

-- The disk, the block bitmap in memory, the inode of the file and `all_blocks`
pub record Growing : Type 0 where
  pub disk : Memory
  pub block_bitmap : Bitmap
  pub inode : Inode
  pub all_blocks : ℕ → ℕ

abbrev pub set_sector : Growing → ℕ → ℕ → Growing
set_sector g i lba = record g {
  inode = record (g.inode) { i_sectors = λ j. if j == i then lba else (g.inode).i_sectors j };
}

abbrev pub set_block : Growing → ℕ → ℕ → Growing
set_block g i lba = record g { all_blocks = λ j. if j == i then lba else g.all_blocks j }

-- `block_bitmap_alloc`, and the bitmap in memory that it leaves
unfoldable pub allot : Layout → Growing → Outcome (Option ℕ × Growing)
allot lay g = do
  (got, btmp) ← block_bitmap_alloc lay.data_start_lba g.block_bitmap
  ok (got, record g { block_bitmap = btmp })

-- The bitmap's sector for the block goes to the disk.
unfoldable pub sync_block : Layout → Growing → ℕ → Growing
sync_block lay g block_lba = record g {
  disk =
      bitmap_sync g.disk lay.block_bitmap_lba g.block_bitmap (sub32 block_lba lay.data_start_lba);
}

-- `ide_write(cur_part->mydisk, indirect_block_table, all_blocks + 12, 1)`
unfoldable pub write_table : Growing → ℕ → Growing
write_table g lba = record g {
  disk = λ d.
      if leb (lba * sector_size) d && ltb d ((lba + 1) * sector_size)
      then byte_of (g.all_blocks (12 + (d - lba * sector_size) / 4)) (d % 4)
      else g.disk d;
}

-- The first block of a file that has none; whether it has one then
unfoldable pub first_block : Layout → Growing → Outcome (Bool × Growing)
first_block lay g =
    if (g.inode).i_sectors 0 == 0
    then (do
      next ← allot lay g
      elim next.0 [
        | none ↦ ok (false, next.1)
        | some block_lba ↦ (do
          assert (not (sub32 block_lba lay.data_start_lba == 0))
          ok (true, sync_block lay (set_sector next.1 0 block_lba) block_lba))
      ])
    else ok (true, g)

-- One round of the loops that allot blocks: a direct block goes to the inode, too.
unfoldable pub place_block : Layout → Growing → ℕ → ℕ → Outcome Growing
place_block lay g block_idx block_lba =
    if ltb block_idx 12
    then (do
      assert ((g.inode).i_sectors block_idx == 0)
      ok (
          sync_block lay (set_block (set_sector g block_idx block_lba) block_idx block_lba)
            block_lba))
    else ok (sync_block lay (set_block g block_idx block_lba) block_lba)

-- The three loops, with the blocks to go
unfoldable pub more_blocks : ℕ → Layout → Growing → ℕ → Outcome (Bool × Growing)
more_blocks zero lay g block_idx = ok (true, g)
more_blocks (suc n) lay g block_idx = do
  next ← allot lay g
  elim next.0 [
    | none ↦ ok (false, next.1)
    | some block_lba ↦ (do
      g₁ ← place_block lay next.1 block_idx block_lba
      more_blocks n lay g₁ (block_idx + 1))
  ]

-- The table of a file that gets its first indirect block
unfoldable pub new_table : Layout → Growing → Outcome (Bool × Growing)
new_table lay g = do
  next ← allot lay g
  elim next.0 [
    | none ↦ ok (false, next.1)
    | some block_lba ↦ (do
      assert ((g.inode).i_sectors 12 == 0)
      ok (true, sync_block lay (set_sector next.1 12 block_lba) block_lba))
  ]

abbrev pub keep_last : Growing → ℕ → Growing
keep_last g has_used = set_block g (has_used - 1) ((g.inode).i_sectors (has_used - 1))

-- `write_table` behind a loop that has found all its blocks
unfoldable pub then_table : Bool × Growing → Outcome (Bool × Growing)
then_table (false, g) = ok (false, g)
then_table (true, g) = ok (true, write_table g ((g.inode).i_sectors 12))

abbrev pub load_table : Growing → Growing
load_table g = record g { all_blocks = read_table g.disk ((g.inode).i_sectors 12) g.all_blocks }

-- The part of `file_write` that fills `all_blocks`, by the blocks used before and after
unfoldable pub collect_blocks : Layout → Growing → ℕ → ℕ → Outcome (Bool × Growing)
collect_blocks lay g has_used will_use =
    if sub32 will_use has_used == 0
    then (if leb will_use 12
        then ok (true, keep_last g will_use)
        else (do assert (not ((g.inode).i_sectors 12 == 0)); ok (true, load_table g)))
    else if leb will_use 12
    then (do
      assert (not ((g.inode).i_sectors (has_used - 1) == 0))
      more_blocks (will_use - has_used) lay (keep_last g has_used) has_used)
    else if leb has_used 12
    then (do
      with_table ← new_table lay (keep_last g has_used)
      elim with_table.0 [
        | false ↦ ok with_table
        | true ↦ more_blocks (will_use - has_used) lay with_table.1 has_used >>= then_table
      ])
    else (do
      assert (not ((g.inode).i_sectors 12 == 0))
      more_blocks (will_use - has_used) lay (load_table g) has_used >>= then_table)

-- The loop that writes: what it has written, the disk, the size of the file, the position and the
-- memory with `io_buf`, which is filled from the disk in the first round only.
unfoldable pub write_chunks :
    ℕ
    → Memory
    → (ℕ → ℕ)
    → ℕ
    → Memory
    → ℕ
    → Bool
    → ℕ
    → ℕ
    → ℕ
    → ℕ
    → ℕ
    → Outcome (ℕ × Memory × ℕ × ℕ × Memory)
write_chunks zero disk all_blocks io_buf m src first i_size fd_pos count bytes_written bytes_left =
    out_of_fuel
write_chunks (suc n) disk all_blocks io_buf m src first i_size fd_pos count bytes_written
      bytes_left =
    let sec_lba = all_blocks (i_size / sector_size) in
    let sec_off_bytes = i_size % sector_size in
    let chunk = chunk_size bytes_left sec_off_bytes in
    let m₀ = fill m io_buf 0 sector_size in
    let m₁ = if first then read_sectors disk sec_lba m₀ io_buf 1 else m₀ in
    let round = memcpy m₁ (io_buf + sec_off_bytes) src chunk >>= λ m₂.
    write_chunks n (write_sectors disk sec_lba m₂ io_buf 1) all_blocks io_buf m₂ (src + chunk) false
      (add32 i_size chunk) (add32 fd_pos chunk) count (add32 bytes_written chunk)
      (sub32 bytes_left chunk) in
    if ltb bytes_written count then round else ok (bytes_written, disk, i_size, fd_pos, m)

-- What `file_write` leaves: the disk, the bitmap, the inode and the position
pub record Written : Type 0 where
  pub disk : Memory
  pub block_bitmap : Bitmap
  pub inode : Inode
  pub fd_pos : ℕ

abbrev pub as_left : Growing → ℕ → Written
as_left g fd_pos = record {
  disk = g.disk;
  block_bitmap = g.block_bitmap;
  inode = g.inode;
  fd_pos = fd_pos;
}

-- The part behind the collection
unfoldable pub write_all : ℕ → Layout → Growing → Memory → ℕ → ℕ → ℕ → Outcome (Option ℕ × Written)
write_all n lay g m buf count io_buf = do
  done ←
      write_chunks n g.disk g.all_blocks io_buf m buf true (g.inode).i_size
        (sub32 (g.inode).i_size 1) count 0 count
  let inode = record (g.inode) { i_size = done.2 }
  disk ← inode_sync lay.part done.1 inode done.4 io_buf
  ok (some done.0, as_left (record g { disk = disk; inode = inode }) done.3)

abbrev pub max_file_size : ℕ
max_file_size = 140 * 512

-- The result is `none` for -1.
unfoldable pub file_write :
    ℕ → Layout → Written → Memory → ℕ → ℕ → Option ℕ → Option (ℕ → ℕ) → Outcome (Option ℕ × Written)
file_write n lay w m buf count io_buf all_blocks =
    let size = add32 (w.inode).i_size count in
    if ltb max_file_size size then ok (none, w) else elim io_buf [
      | none ↦ ok (none, w)
      | some io ↦ elim all_blocks [
        | none ↦ ok (none, w)
        | some blocks ↦ (do
          first ← first_block lay (record {
            disk = w.disk;
            block_bitmap = w.block_bitmap;
            inode = w.inode;
            all_blocks = blocks;
          })
          elim first.0 [
            | false ↦ ok (none, as_left first.1 w.fd_pos)
            | true ↦ (do
              let has_used = (w.inode).i_size / sector_size + 1
              let will_use = size / sector_size + 1
              assert (leb will_use 140)
              collected ← collect_blocks lay first.1 has_used will_use
              elim collected.0 [
                | false ↦ ok (none, as_left collected.1 w.fd_pos)
                | true ↦ write_all n lay collected.1 m buf count io
              ])
          ])
      ]
    ]
