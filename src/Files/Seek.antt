-- ===== src/Files/Seek.antt =====
-- `sys_lseek` keeps the position inside the file.
use seeking_os.Prelude.{
  ℕ, ◌^◌, ◌≤◌, ◌<◌, ◌≡◌, refl, ◌+◌, ◌%◌, Bool, true, false, ◌||◌, none, some, arith, ok, leb, ltb,
  sub32,
}
use seeking_os.Files.{
  FileSystem, Whence, fd_local2global, int_key, seek_target, set_file, sys_lseek,
}

seek_target-lt :
    (w : Whence) (pos size offset : ℕ) → offset < 2 ^ 32 → seek_target w pos size offset < 2 ^ 32
unfolding seek_target
seek_target-lt Whence.seek_set pos size offset lt = lt
seek_target-lt Whence.seek_cur pos size offset lt = omega arith
seek_target-lt Whence.seek_end pos size offset lt = omega arith

-- The position that a call asks for: from the start of the file, from where it stands, from its end
abbrev pub asked : Whence → ℕ → ℕ → ℕ → ℕ
asked Whence.seek_set pos size offset = offset
asked Whence.seek_cur pos size offset = (pos + offset) % 2 ^ 32
asked Whence.seek_end pos size offset = (size + offset) % 2 ^ 32

seek_target-asked :
    (w : Whence) (pos size offset : ℕ) → seek_target w pos size offset ≡ asked w pos size offset
unfolding seek_target
seek_target-asked Whence.seek_set pos size offset = refl
seek_target-asked Whence.seek_cur pos size offset = omega arith
seek_target-asked Whence.seek_end pos size offset = omega arith

local_global :
    (s : FileSystem) (fd g : ℕ) → s.fd_table fd ≡ some g → g ≤ 32 → fd_local2global s fd ≡ ok g
unfolding fd_local2global
local_global s fd g to le =
    let valid : leb g 32 ≡ true = ground arith in rw (to, fd_local2global, valid)

refused : ℕ → ℕ → Bool
refused target size =
    ltb (int_key target) (int_key 0) || ltb (int_key (sub32 size 1)) (int_key target)

refused-outside :
    (target size : ℕ) → target < 2 ^ 32 → size < 2 ^ 31 → size ≤ target → refused target size ≡ true
unfolding refused
refused-outside target size lt small out = ground arith

refused-inside : (target size : ℕ) → size < 2 ^ 31 → target < size → refused target size ≡ false
unfolding refused
refused-inside target size small within = ground arith

-- For an open file smaller than 2 GiB, `sys_lseek` moves by the offset from the start, from the
-- current position or from the end of the file, in 32 bits, if that lies before the end; else, so
-- also at the end itself, it returns -1 and changes nothing.
pub sys_lseek_lem :
    (s : FileSystem) (fd g nr offset : ℕ) (whence : Whence)
    → s.fd_table fd ≡ some g
    → g ≤ 32
    → (s.file_table g).fd_inode ≡ some nr
    → (s.open_inodes nr).i_size < 2 ^ 31
    → offset < 2 ^ 32
    → let size = (s.open_inodes nr).i_size in
      let target = asked whence (s.file_table g).fd_pos size offset in
      (target < size
        → sys_lseek s fd offset whence
          ≡ ok (some target, set_file s g (record (s.file_table g) { fd_pos = target })))
      × (size ≤ target → sys_lseek s fd offset whence ≡ ok (none, s))
unfolding sys_lseek refused
sys_lseek_lem s fd g nr offset whence to le used small word =
    let size = (s.open_inodes nr).i_size in
    let target = asked whence (s.file_table g).fd_pos size offset in
    let same = seek_target-asked whence (s.file_table g).fd_pos size offset in
    let found = local_global s fd g to le in
    (
      λ within. simp (found, used, sys_lseek, same, refused-inside target size small within),
      λ out. rw (
        found,
        used,
        sys_lseek,
        same,
        refused-outside target size (rw (← same) (seek_target-lt whence _ size offset word)) small
            out,
      ),
    )
