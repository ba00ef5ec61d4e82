-- ===== src/Files.antt =====
-- fs/file.c, fs/fs.c and shell/pipe.c: the file table of the kernel, the descriptors of the running
-- task, and the inodes that are open.
-- An open inode is its number, and stands in the list of open inodes while its count is not 0; the
-- page of a pipe is its number, too. `none` is NULL, and -1 in `fd_table` and in results.
pub mod Slots
pub mod Counts
pub mod Seek
mod Tests
use seeking_os.Prelude.{
  ℕ, zero, suc, ◌+◌, ◌-◌, ◌*◌, ◌/◌, ◌%◌, ◌^◌, Bool, true, false, not, ◌&&◌, ◌||◌, Option, none,
  some, List, [], ◌∷◌, Memory, Outcome, ok, panic, assert, ◌>>=◌, ◌>>◌, ◌==◌, ltb, leb,
  if◌then◌else◌, add32, sub32, mul32, bit_and,
}
use seeking_os.Bitmap.{Bitmap, bitmap_scan, bitmap_set}
use seeking_os.Inode.{write_sectors}

abbrev pub max_files_open : ℕ
max_files_open = 32

abbrev pub max_files_open_per_proc : ℕ
max_files_open_per_proc = 8

abbrev pub pipe_flag : ℕ
pipe_flag = 0xffffffff

pub record File : Type 0 where
  pub fd_pos : ℕ
  pub fd_flag : ℕ
  pub fd_inode : Option ℕ

-- What is shared by all who have opened an inode
pub record OpenInode : Type 0 where
  pub i_size : ℕ
  pub i_open_cnts : ℕ
  pub writen_deny : Bool

-- `size_on_disk` is the size that an inode has on the disk, for one that is not open.
pub record FileSystem : Type 0 where
  pub file_table : ℕ → File
  pub fd_table : ℕ → Option ℕ
  pub open_inodes : ℕ → OpenInode
  pub size_on_disk : ℕ → ℕ

abbrev pub set_file : FileSystem → ℕ → File → FileSystem
set_file s i f = record s { file_table = λ j. if j == i then f else s.file_table j }

abbrev pub set_inode : FileSystem → ℕ → OpenInode → FileSystem
set_inode s i n = record s { open_inodes = λ j. if j == i then n else s.open_inodes j }

abbrev pub set_fd : FileSystem → ℕ → Option ℕ → FileSystem
set_fd s i g = record s { fd_table = λ j. if j == i then g else s.fd_table j }

abbrev pub is_none : {A : Type 0} → Option A → Bool
is_none none = true
is_none (some a) = false

-- The loops over a table, with the number of entries to go: the first that is free
unfoldable pub free_slot : ℕ → (ℕ → File) → ℕ → Option ℕ
free_slot zero table fd_idx = none
free_slot (suc n) table fd_idx =
    let rest = free_slot n table (fd_idx + 1) in
    if is_none (table fd_idx).fd_inode then some fd_idx else rest

unfoldable pub get_free_slot_in_global : FileSystem → Option ℕ
get_free_slot_in_global s = free_slot (max_files_open - 3) s.file_table 3

unfoldable pub free_fd : ℕ → (ℕ → Option ℕ) → ℕ → Option ℕ
free_fd zero table local_fd_idx = none
free_fd (suc n) table local_fd_idx =
    let rest = free_fd n table (local_fd_idx + 1) in
    if is_none (table local_fd_idx) then some local_fd_idx else rest

unfoldable pub pcb_fd_install : FileSystem → ℕ → Option ℕ × FileSystem
pcb_fd_install s global_fd_idx = elim (free_fd (max_files_open_per_proc - 3) s.fd_table 3) [
  | none ↦ (none, s)
  | some local_fd_idx ↦ (some local_fd_idx, set_fd s local_fd_idx (some global_fd_idx))
]

-- The ASSERT lets `MAX_FILES_OPEN` itself pass.
unfoldable pub fd_local2global : FileSystem → ℕ → Outcome ℕ
fd_local2global s local_fd = elim (s.fd_table local_fd) [
  | none ↦ panic
  | some global_fd ↦ (do assert (leb global_fd max_files_open); ok global_fd)
]

-- `inode_bitmap_alloc`; the result has the bitmap.
unfoldable pub inode_bitmap_alloc : Bitmap → Outcome (Option ℕ × Bitmap)
inode_bitmap_alloc btmp = do
  found ← bitmap_scan btmp 1
  elim found [
    | none ↦ ok (none, btmp)
    | some bit_idx ↦ (do btmp' ← bitmap_set btmp bit_idx 1; ok (some bit_idx, btmp'))
  ]

unfoldable pub block_bitmap_alloc : ℕ → Bitmap → Outcome (Option ℕ × Bitmap)
block_bitmap_alloc data_start_lba btmp = do
  found ← bitmap_scan btmp 1
  elim found [
    | none ↦ ok (none, btmp)
    | some bit_idx ↦ (do
      btmp' ← bitmap_set btmp bit_idx 1
      ok (some (add32 data_start_lba bit_idx), btmp'))
  ]

-- Both cases of `bitmap_sync`, for the bitmap that starts at sector `lba`
unfoldable pub bitmap_sync : Memory → ℕ → Bitmap → ℕ → Memory
bitmap_sync disk lba btmp bit_idx =
    let off_sec = bit_idx / 4096 in
    write_sectors disk (add32 lba off_sec) btmp.bits (off_sec * 512) 1

-- `inode_open`: one that is open is shared, another is loaded.
unfoldable pub inode_open : FileSystem → ℕ → FileSystem
inode_open s inode_no =
    let inode = s.open_inodes inode_no in
    if not (inode.i_open_cnts == 0)
    then set_inode s inode_no (record inode { i_open_cnts = add32 inode.i_open_cnts 1 })
    else set_inode s inode_no
        (record { i_size = s.size_on_disk inode_no; i_open_cnts = 1; writen_deny = false })

unfoldable pub inode_close : FileSystem → ℕ → FileSystem
inode_close s inode_no =
    let inode = s.open_inodes inode_no in
    set_inode s inode_no (record inode { i_open_cnts = sub32 inode.i_open_cnts 1 })

-- `flag & O_WRONLY || flag & O_RDWR`
unfoldable pub writes : ℕ → Bool
writes flag = not (bit_and flag 1 == 0) || not (bit_and flag 2 == 0)

unfoldable pub file_open : FileSystem → ℕ → ℕ → Option ℕ × FileSystem
file_open s inode_no flag = elim (get_free_slot_in_global s) [
  | none ↦ (none, s)
  | some fd_idx ↦
      let s₁ = inode_open s inode_no in
      let s₂ =
        set_file s₁ fd_idx (record { fd_pos = 0; fd_flag = flag; fd_inode = some inode_no }) in
      let inode = s₂.open_inodes inode_no in
      if writes flag
      then (if not inode.writen_deny
          then pcb_fd_install (set_inode s₂ inode_no (record inode { writen_deny = true })) fd_idx
          else (none, s₂))
      else pcb_fd_install s₂ fd_idx
]

-- `file_close(&file_table[fd_idx])`, of a slot in use
unfoldable pub file_close : FileSystem → ℕ → FileSystem
file_close s fd_idx = elim (s.file_table fd_idx).fd_inode [
  | none ↦ s
  | some inode_no ↦
      let inode = s.open_inodes inode_no in
      let s₁ = inode_close (set_inode s inode_no (record inode { writen_deny = false })) inode_no in
      set_file s₁ fd_idx (record (s.file_table fd_idx) { fd_inode = none })
]

-- `SEEK_SET`, `SEEK_CUR`, `SEEK_END`
pub data Whence : Type 0 where
  seek_set seek_cur seek_end : Whence

-- The order of `int32_t`
abbrev pub int_key : ℕ → ℕ
int_key w = (w + 2 ^ 31) % 2 ^ 32

-- What the switch of `sys_lseek` computes, as a word
unfoldable pub seek_target : Whence → ℕ → ℕ → ℕ → ℕ
seek_target Whence.seek_set pos size offset = offset
seek_target Whence.seek_cur pos size offset = add32 pos offset
seek_target Whence.seek_end pos size offset = add32 size offset

-- For a descriptor that is not negative; `none` is -1.
unfoldable pub sys_lseek : FileSystem → ℕ → ℕ → Whence → Outcome (Option ℕ × FileSystem)
sys_lseek s fd offset whence = do
  global_fd ← fd_local2global s fd
  let pf = s.file_table global_fd
  elim pf.fd_inode [
    | none ↦ panic
    | some inode_no ↦
        let file_size = (s.open_inodes inode_no).i_size in
        let new_pos = seek_target whence pf.fd_pos file_size offset in
        if ltb (int_key new_pos) (int_key 0) || ltb (int_key (sub32 file_size 1)) (int_key new_pos)
        then ok (none, s)
        else ok (some new_pos, set_file s global_fd (record pf { fd_pos = new_pos }))
  ]
