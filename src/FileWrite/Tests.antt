-- ===== src/FileWrite/Tests.antt =====
-- A file of 700 bytes in two blocks behind a table of inodes, for `file_write` of fs/file.c.
use seeking_os.Prelude.{
  ℕ, ◌+◌, ◌%◌, ◌<◌, ◌≡◌, refl, arith, true, some, Memory, ok, panic, ◌==◌, inl, inr, if◌then◌else◌,
}
use seeking_os.Inode.{Inode}
use seeking_os.FileRead.{file_read}
use seeking_os.FileRead.Bytes.{file_byte}
use seeking_os.FileWrite.{Layout, Written, file_write}
use seeking_os.FileWrite.Append.{IsStored, grown, file_write_lem, write_then_read}
use seeking_os.FileWrite.Limit.{file_write-limit}

abbrev layout : Layout
layout = record {
  part = record { inode_table_lba = 100; start_lba = 0; sec_cnt = 10000 };
  data_start_lba = 800;
  block_bitmap_lba = 2;
}

abbrev sized : ℕ → Inode
sized size = record {
  i_no = 3;
  i_size = size;
  i_open_cnts = 1;
  writen_deny = true;
  i_sectors = λ k. if k == 0 then 900 else if k == 1 then 850 else 0;
}

abbrev file : ℕ → Written
file size = record {
  disk = λ d. 0;
  block_bitmap = record { btmp_bytes_len = 1; bits = λ a. 0 };
  inode = sized size;
  fd_pos = 0;
}

abbrev memory : Memory
memory a = a % 256

file-IsStored : IsStored layout.part (sized 700)
file-IsStored = record {
  mounted = record { fits = omega arith; inside = omega arith };
  number = omega arith;
  direct = omega arith;
  first = λ e. omega arith;
  apart = λ j le. inr (ground arith);
  own = λ i j lt le. ground arith;
}

file_write_lem_example :
    (w' : Written) × (file_write 21 layout (file 700) memory 1000 20 (some 5000) (some (λ k. 0))
      ≡ ok (some 20, w'))
    × (w'.inode ≡ grown (sized 700) 20)
    × (w'.block_bitmap ≡ (file 700).block_bitmap)
    × ((k : ℕ) → k < 20 → file_byte w'.disk w'.inode (700 + k) ≡ memory (1000 + k))
    × ((p : ℕ) → p < 700 → file_byte w'.disk w'.inode p ≡ file_byte (file 700).disk (sized 700) p)
file_write_lem_example =
    file_write_lem 21 layout (file 700) memory 1000 20 5000 (λ k. 0) file-IsStored refl
      (omega arith) (omega arith) (inl (omega arith)) (omega arith)

write_then_read_example :
    (w' : Written) × (m' : Memory) × (file_write 21 layout
        (file 700)
        memory
        1000
        20
        (some 5000)
        (some (λ k. 0))
      ≡ ok (some 20, w'))
    × (file_read 21 w'.disk w'.inode 700 memory 2000 20 (some 7000) (some (λ k. 0))
        ≡ ok (some 20, m', 720))
    × ((k : ℕ) → k < 20 → m' (2000 + k) ≡ memory (1000 + k))
write_then_read_example =
    write_then_read 21 layout (file 700) memory 1000 20 5000 (λ k. 0) 21 memory 2000 7000 (λ k. 0)
      file-IsStored refl (omega arith) (omega arith) (omega arith) (inl (omega arith)) (omega arith)
      (omega arith) (omega arith) (inl (omega arith)) (omega arith)

-- The size that the message names as the largest
file_write-limit_example :
    file_write 700 layout (file 71000) memory 1000 680 (some 5000) (some (λ k. 0)) ≡ panic
file_write-limit_example =
    file_write-limit 700 layout (file 71000) memory 1000 680 5000 (λ k. 0) (omega arith)
      (omega arith) (λ e. omega arith)
