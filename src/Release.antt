-- ===== src/Release.antt =====
-- fs/inode.c: `inode_realse`, which gives the blocks of an inode and the inode itself back.
-- The inode is the one that `inode_open` has found, and its count of openings is left aside here.
pub mod Blocks
pub mod Whole
mod Tests
use seeking_os.Prelude.{
  ℕ, zero, suc, ◌+◌, ◌-◌, Bool, true, false, not, ◌&&◌, Memory, Outcome, ok, assert, ◌>>=◌, ◌>>◌,
  ◌==◌, ltb, if◌then◌else◌, sub32,
}
use seeking_os.Bitmap.{Bitmap, bitmap_set}
use seeking_os.Inode.{Inode, Partition, inode_delete}
use seeking_os.Files.{bitmap_sync}
use seeking_os.FileRead.{read_table}

-- The fields of `struct super_block` that are read here
pub record Sectors : Type 0 where
  pub part : Partition
  pub data_start_lba : ℕ
  pub block_bitmap_lba : ℕ
  pub inode_bitmap_lba : ℕ

-- The disk, and the two bitmaps of the partition in memory
pub record Stored : Type 0 where
  pub disk : Memory
  pub block_bitmap : Bitmap
  pub inode_bitmap : Bitmap

-- One block is free again, in the bitmap and in its sector on the disk.
unfoldable pub free_block : Sectors → Stored → ℕ → Outcome Stored
free_block lay s block_lba = do
  let block_bitmap_idx = sub32 block_lba lay.data_start_lba
  assert (ltb 0 block_bitmap_idx)
  btmp ← bitmap_set s.block_bitmap block_bitmap_idx 0
  ok (record s {
    block_bitmap = btmp;
    disk = bitmap_sync s.disk lay.block_bitmap_lba btmp block_bitmap_idx;
  })

-- The loop over the blocks, with those to go
unfoldable pub free_blocks : ℕ → Sectors → Stored → (ℕ → ℕ) → ℕ → Outcome Stored
free_blocks zero lay s all_blocks block_idx = ok s
free_blocks (suc n) lay s all_blocks block_idx = do
  s₁ ← if not (all_blocks block_idx == 0) then free_block lay s (all_blocks block_idx) else ok s
  free_blocks n lay s₁ all_blocks (block_idx + 1)

-- `all_blocks[140] = {0}` with the twelve direct blocks
abbrev pub direct_blocks : Inode → ℕ → ℕ
direct_blocks inode i = if ltb i 12 then inode.i_sectors i else 0

unfoldable pub release_blocks : Sectors → Stored → Inode → Outcome Stored
release_blocks lay s inode =
    if not (inode.i_sectors 12 == 0)
    then (do
      let all_blocks = read_table s.disk (inode.i_sectors 12) (direct_blocks inode)
      s₁ ← free_block lay s (inode.i_sectors 12)
      free_blocks 140 lay s₁ all_blocks 0)
    else free_blocks 12 lay s (direct_blocks inode) 0

-- `io_buf` is what `sys_malloc` gives, which is not tested.
unfoldable pub inode_realse : Sectors → Stored → Inode → ℕ → Memory → ℕ → Outcome Stored
inode_realse lay s inode inode_no m io_buf = do
  assert (inode.i_no == inode_no)
  s₁ ← release_blocks lay s inode
  btmp ← bitmap_set s₁.inode_bitmap inode_no 0
  let disk₁ = bitmap_sync s₁.disk lay.inode_bitmap_lba btmp inode_no
  disk₂ ← inode_delete lay.part disk₁ inode_no m io_buf
  ok (record s₁ { disk = disk₂; inode_bitmap = btmp })
