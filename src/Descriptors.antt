-- ===== src/Descriptors.antt =====
-- shell/pipe.c and fs/fs.c: pipes in the file table, the redirection and the closing of descriptors.
-- The page of a pipe holds its ring; `rings` are the rings by their pages. `none` is -1 or NULL.
pub mod Lifecycle
mod Tests
use seeking_os.Prelude.{
  ℕ, suc, ◌+◌, ◌-◌, Bool, true, false, not, Option, none, some, Outcome, ok, panic, assert, ◌>>=◌,
  ◌>>◌, ◌==◌, ltb, leb, if◌then◌else◌, sub32,
}
use seeking_os.IoQueue.{IoQueue, ioqueue_init}
use seeking_os.Pages.{Machine, PoolFlags, pf_kernel, pf_user, malloc_page, mfree_page}
use seeking_os.Files.{
  File, FileSystem, set_file, set_fd, get_free_slot_in_global, pcb_fd_install, fd_local2global,
  file_close, pipe_flag,
}

pub record Tables : Type 0 where
  pub files : FileSystem
  pub machine : Machine
  pub rings : ℕ → IoQueue

-- The memory is cleared, too, which the ring's initialisation overwrites.
abbrev pub get_kernel_pages : Machine → ℕ → Outcome (Option ℕ × Machine)
get_kernel_pages m pg_cnt = malloc_page m pf_kernel pg_cnt

abbrev pub get_user_pages : Machine → ℕ → Outcome (Option ℕ × Machine)
get_user_pages m pg_cnt = malloc_page m pf_user pg_cnt

unfoldable pub is_pipe : FileSystem → ℕ → Outcome Bool
is_pipe s local_fd = do
  global_fd ← fd_local2global s local_fd
  ok ((s.file_table global_fd).fd_flag == pipe_flag)

-- The part behind the page: the ring, the slot and the two descriptors
unfoldable pub pipe_slot : Tables → ℕ → ℕ → (Option ℕ × Option ℕ) × Tables
pipe_slot t global_fd page =
    let slot : File = record { fd_pos = 2; fd_flag = pipe_flag; fd_inode = some page } in
    let s = set_file t.files global_fd slot in
    let first = pcb_fd_install s global_fd in
    let second = pcb_fd_install first.1 global_fd in
    let rings : ℕ → IoQueue = λ p. if p == page then ioqueue_init (t.rings page) else t.rings p in
    ((first.0, second.0), record t { files = second.1; rings = rings })

-- Without a free slot the source writes in front of the table, which is the `panic` here. The first
-- result is -1 or the descriptors.
unfoldable pub sys_pipe : Tables → Outcome (Option (Option ℕ × Option ℕ) × Tables)
sys_pipe t = elim (get_free_slot_in_global t.files) [
  | none ↦ panic
  | some global_fd ↦ (do
    (got, m) ← get_kernel_pages t.machine 1
    elim got [
      | none ↦
          let slot = t.files.file_table global_fd in
          ok (
            none,
            record t {
              files = set_file t.files global_fd (record slot { fd_inode = none });
              machine = m;
            },
          )
      | some page ↦
          let made = pipe_slot (record t { machine = m }) global_fd page in ok (some made.0, made.1)
    ])
]

unfoldable pub sys_fd_redirect : FileSystem → ℕ → ℕ → FileSystem
sys_fd_redirect s old_local_fd new_local_fd =
    if ltb new_local_fd 3
    then set_fd s old_local_fd (some new_local_fd)
    else set_fd s old_local_fd (s.fd_table new_local_fd)

-- One end of a pipe goes; with the last the page is given back.
unfoldable pub close_pipe : Tables → ℕ → Outcome Tables
close_pipe t global_fd =
    let file = t.files.file_table global_fd in
    let left = sub32 file.fd_pos 1 in
    if not (left == 0)
    then ok (record t { files = set_file t.files global_fd (record file { fd_pos = left }) })
    else elim file.fd_inode [
      | none ↦ panic
      | some page ↦ (do
        m ← mfree_page t.machine pf_kernel page 1
        ok (record t {
          files = set_file t.files global_fd (record file { fd_pos = left; fd_inode = none });
          machine = m;
        }))
    ]

-- For a descriptor that is not negative; whether the result is 0, not -1
unfoldable pub sys_close : Tables → ℕ → Outcome (Bool × Tables)
sys_close t fd =
    if ltb 2 fd
    then (do
      global_fd ← fd_local2global t.files fd
      pipe ← is_pipe t.files fd
      t₁ ←
          if pipe
          then close_pipe t global_fd
          else ok (record t { files = file_close t.files global_fd })
      ok (true, record t₁ { files = set_fd t₁.files fd none }))
    else ok (false, t)
