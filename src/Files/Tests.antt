-- ===== src/Files/Tests.antt =====
-- A file system with one open file, in slot 3, for fs/file.c.
use seeking_os.Prelude.{◌≤◌, ◌<◌, ◌≡◌, refl, false, none, some, arith, ok, ◌==◌, if◌then◌else◌}
use seeking_os.Files.{FileSystem, Whence, file_open, file_close, seek_target, set_file, sys_lseek}
use seeking_os.Files.Counts.{IsCounted, count, open_and_close-IsCounted}
use seeking_os.Files.Seek.{sys_lseek_lem}

abbrev one_open : FileSystem
one_open = record {
  file_table = λ j. record { fd_pos = 0; fd_flag = 0; fd_inode = if j == 3 then some 6 else none };
  fd_table = λ j. if j == 3 then some 3 else none;
  open_inodes =
      λ i. record { i_size = 700; i_open_cnts = if 6 == i then 1 else 0; writen_deny = false };
  size_on_disk = λ i. 700;
}

one_open-IsCounted : IsCounted one_open
unfolding count
one_open-IsCounted i = ground arith

open_and_close-IsCounted_example :
    IsCounted (file_open one_open 9 2).1 × IsCounted (file_close one_open 3)
open_and_close-IsCounted_example =
    open_and_close-IsCounted one_open 9 2 3 6 one_open-IsCounted (omega arith) refl

sys_lseek_lem_example :
    (650 < 700
      → sys_lseek one_open 3 650 Whence.seek_set
        ≡ ok (some 650, set_file one_open 3 (record (one_open.file_table 3) { fd_pos = 650 })))
    × (700 ≤ 650 → sys_lseek one_open 3 650 Whence.seek_set ≡ ok (none, one_open))
unfolding seek_target
sys_lseek_lem_example =
    sys_lseek_lem one_open 3 3 6 650 Whence.seek_set refl (omega arith) refl (omega arith)
      (omega arith)
