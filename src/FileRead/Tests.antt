-- ===== src/FileRead/Tests.antt =====
-- A file of 700 bytes in two blocks, for `file_read` of fs/file.c.
use seeking_os.Prelude.{
  ℕ, ◌+◌, ◌<◌, ◌≡◌, arith, false, ◌&&◌, some, Memory, ok, ◌==◌, inl, leb, ltb, if◌then◌else◌,
}
use seeking_os.Inode.{Inode}
use seeking_os.FileRead.{file_read}
use seeking_os.FileRead.Bytes.{file_byte}
use seeking_os.FileRead.Whole.{file_read_lem}

abbrev disk : Memory
disk d = d

abbrev inode : Inode
inode = record {
  i_no = 3;
  i_size = 700;
  i_open_cnts = 1;
  writen_deny = false;
  i_sectors = λ k. if k == 0 then 20 else if k == 1 then 9 else 0;
}

abbrev memory : Memory
memory a = 0

-- From byte 500 on there are 200 left, of which 12 are in the first block.
file_read_lem_example :
    (m' : Memory) × (file_read 201 disk inode 500 memory 1000 300 (some 5000) (some (λ k. 0))
      ≡ ok (some 200, m', 700))
    × ((k : ℕ) → k < 200 → m' (1000 + k) ≡ file_byte disk inode (500 + k))
    × ((a : ℕ)
        → (leb 1000 a && ltb a (1000 + 200)) ≡ false
        → (leb 5000 a && ltb a (5000 + 512)) ≡ false
        → m' a ≡ memory a)
file_read_lem_example =
    file_read_lem 201 disk inode 500 memory 1000 300 5000 (λ k. 0) (omega arith) (omega arith)
      (omega arith) (λ far. absurd (omega arith)) (omega arith) (omega arith) (inl (omega arith))
      (omega arith)
