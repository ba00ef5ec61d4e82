-- ===== src/Pipe/Tests.antt =====
-- A ring of two bytes for shell/pipe.c.
use seeking_os.Prelude.{ℕ, ◌+◌, ◌-◌, ◌%◌, ◌≡◌, refl, none, some, [], List, arith, Memory, length}
use seeking_os.IoQueue.{IoQueue, done, sleeps, ioq_lenth, bufsize}
use seeking_os.IoQueue.Locking.{free_lock, held_lock}
use seeking_os.IoQueue.Contents.{IsValid, contents}
use seeking_os.Pipe.{pipe_read, pipe_write}
use seeking_os.Pipe.Read.{Moved, pipe_read_lem}
use seeking_os.Pipe.Write.{pipe_write_sleeps}

abbrev ring : IoQueue
ring = record {
  lock = free_lock [];
  producer = none;
  consumer = none;
  buf = λ a. a % 256;
  head = 1;
  tail = 2047;
}

ring-IsValid : IsValid ring
ring-IsValid = record { head_in = omega arith; tail_in = omega arith }

abbrev memory : Memory
memory = λ a. (a + 1) % 256

pipe_read_lem_example :
    (m : Memory) × (q : IoQueue) × (woken : List ℕ) × (pipe_read 7 ring memory 100 5
      ≡ done (2, m) q woken)
    × Moved ring memory 100 2 q m
unfolding ioq_lenth
pipe_read_lem_example = pipe_read_lem 7 ring memory 100 5 ring-IsValid

pipe_write_sleeps_example :
    (q : IoQueue) × (pipe_write 7 ring memory 100 4096 ≡ sleeps q)
    × (length (contents q) ≡ bufsize - 1)
    × (q.producer ≡ some 7)
    × (q.lock ≡ held_lock 7 [])
unfolding ioq_lenth
pipe_write_sleeps_example =
    pipe_write_sleeps 7 ring memory 100 4096 [] ring-IsValid (omega arith) refl refl
