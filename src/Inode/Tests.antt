-- ===== src/Inode/Tests.antt =====
-- An inode on the disk of fs/inode.c.
use seeking_os.Prelude.{ℕ, ◌<◌, ◌≡◌, ◌≢◌, arith, Memory, ok}
use seeking_os.Inode.{Inode, Partition, inode_init, inode_sync, inode_load, word_at}
use seeking_os.Inode.Table.{IsMounted, HasWords, IsReopened, base_of, inode_sync-inode_load}

abbrev part : Partition
part = record { inode_table_lba = 2100; start_lba = 2048; sec_cnt = 100000 }

part-IsMounted : IsMounted part
part-IsMounted = record { fits = omega arith; inside = omega arith }

-- Inode 6 crosses the end of a sector.
abbrev file : Inode
file = record (inode_init 6) { i_no = 6; i_size = 700; i_sectors = λ i. 3000 }

file-HasWords : HasWords file
file-HasWords = record { number = omega arith; size = omega arith; sectors = λ i lt. omega arith }

inode_sync-inode_load_example :
    (disk : Memory) × (loaded : Inode) × (inode_sync part (λ a. 0) file (λ a. 0) 0 ≡ ok disk)
    × (inode_load part disk 6 (λ a. 0) 4096 ≡ ok loaded)
    × IsReopened file loaded
    × ((other k : ℕ)
        → other ≢ 6
        → k < 19
        → word_at disk (base_of part other) k ≡ word_at (λ a. 0) (base_of part other) k)
inode_sync-inode_load_example =
    inode_sync-inode_load part (λ a. 0) file (λ a. 0) (λ a. 0) 0 4096 part-IsMounted file-HasWords
