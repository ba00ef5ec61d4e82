-- ===== src/Pipe.antt =====
-- shell/pipe.c: `pipe_read` and `pipe_write` over the ring of the pipe, which `fd_local2global` and
-- the file table lead to. `buffer` is the caller's memory, apart from the
-- ring. They run in system calls, which the processor enters with interrupts off.
pub mod Read
pub mod Write
mod Tests
use seeking_os.Prelude.{
  ℕ, zero, suc, ◌+◌, ◌-◌, false, List, [], ◌++◌, Memory, store, ltb, if◌then◌else◌, add32,
}
use seeking_os.IoQueue.{
  IoQueue, Call, done, sleeps, locked_out, failed, bufsize, ioq_getchar, ioq_putchar, ioq_lenth,
}

-- The loop of `pipe_read`; the first argument is `size - bytes_read`. The result is `bytes_read` and
-- the memory, and `woken` collects the tasks that the calls have woken.
unfoldable pub read_loop : ℕ → ℕ → IoQueue → Memory → ℕ → ℕ → List ℕ → Call (ℕ × Memory)
read_loop zero cur ioq m buffer bytes_read woken = done (bytes_read, m) ioq woken
read_loop (suc n) cur ioq m buffer bytes_read woken = elim (ioq_getchar false cur ioq) [
  | done byte ioq' w ↦
      read_loop n cur ioq' (store m buffer byte) (buffer + 1) (add32 bytes_read 1) (woken ++ w)
  | sleeps ioq' ↦ sleeps ioq'
  | locked_out ioq' ↦ locked_out ioq'
  | failed ↦ failed
]

unfoldable pub pipe_read : ℕ → IoQueue → Memory → ℕ → ℕ → Call (ℕ × Memory)
pipe_read cur ioq m buffer count =
    let ioq_len = ioq_lenth ioq in
    let size = if ltb count ioq_len then count else ioq_len in read_loop size cur ioq m buffer 0 []

unfoldable pub write_loop : ℕ → ℕ → IoQueue → Memory → ℕ → ℕ → List ℕ → Call ℕ
write_loop zero cur ioq m buffer bytes_write woken = done bytes_write ioq woken
write_loop (suc n) cur ioq m buffer bytes_write woken =
    elim (ioq_putchar false cur ioq (m buffer)) [
      | done _ ioq' w ↦ write_loop n cur ioq' m (buffer + 1) (add32 bytes_write 1) (woken ++ w)
      | sleeps ioq' ↦ sleeps ioq'
      | locked_out ioq' ↦ locked_out ioq'
      | failed ↦ failed
    ]

unfoldable pub pipe_write : ℕ → IoQueue → Memory → ℕ → ℕ → Call ℕ
pipe_write cur ioq m buffer count =
    let ioq_left = bufsize - ioq_lenth ioq in
    let size = if ltb count ioq_left then count else ioq_left in
    write_loop size cur ioq m buffer 0 []
