-- ===== src/Pipe/Read.antt =====
-- `pipe_read` never sleeps, and hands over the oldest bytes in order.
use Prim.Native.Nat.{min}
use seeking_os.Prelude.{
  ℕ, zero, suc, ◌+◌, ◌^◌, ◌≤◌, ◌<◌, ◌≡◌, refl, ◌∙◌, ap, List, [], ◌∷◌, ◌++◌, arith, Memory, store,
  length, add32, ltb, if◌then◌else◌,
}
use seeking_os.IoQueue.{IoQueue, done, ioq_lenth}
use seeking_os.IoQueue.Contents.{IsValid, contents, getchar_done, length-contents, ioq_lenth-lt}
use seeking_os.Pipe.{read_loop, pipe_read}

-- The memory with the bytes written one after the other from `p` on
abbrev pub write_all : Memory → ℕ → List ℕ → Memory
write_all m p [] = m
write_all m p (b ∷ bs) = write_all (store m p b) (p + 1) bs

-- `n` bytes went from the front of the queue to the buffer.
pub record Moved (ioq : IoQueue) (m : Memory) (buffer n : ℕ) (ioq' : IoQueue) (m' : Memory)
    : Type 0 where
  pub bytes : List ℕ
  pub count : length bytes ≡ n
  pub front : contents ioq ≡ bytes ++ contents ioq'
  pub written : m' ≡ write_all m buffer bytes
  pub valid : IsValid ioq'

read_loop_lem :
    (n cur : ℕ) (ioq : IoQueue) (m : Memory) (buffer start total : ℕ) (woken : List ℕ)
    → IsValid ioq
    → n ≤ length (contents ioq)
    → start + n ≡ total
    → total < 2 ^ 32
    → (m' : Memory) × (ioq' : IoQueue) × (woken' : List ℕ) × (read_loop n cur ioq m buffer start
          woken
        ≡ done (total, m') ioq' woken')
      × Moved ioq m buffer n ioq' m'
unfolding read_loop
read_loop_lem zero cur ioq m buffer start total woken v le e small =
    let end : start ≡ total = omega arith in
    (
      m,
      ioq,
      woken,
      rw end,
      record { bytes = []; count = refl; front = refl; written = refl; valid = v },
    )
read_loop_lem (suc n) cur ioq m buffer start total woken v le e small =
    let (b, q, w, got, front, v') = getchar_done cur ioq v (omega arith) in
    let (m', q', w', ran, moved) =
      read_loop_lem n cur q (store m buffer b) (buffer + 1) (add32 start 1) total (woken ++ w) v'
        (omega (arith, ap length front)) (omega arith) small in
    (
      m',
      q',
      w',
      rw (got, read_loop) ran,
      record {
        bytes = b ∷ moved.bytes;
        count = ap suc moved.count;
        front = front ∙ ap (λ l. b ∷ l) moved.front;
        written = moved.written;
        valid = moved.valid;
      },
    )

-- On a ring with both positions in the buffer, `pipe_read` returns without sleeping, having moved
-- the oldest bytes, as many as are asked for or else all, to the buffer in their order, and returns
-- their number.
pub pipe_read_lem :
    (cur : ℕ) (ioq : IoQueue) (m : Memory) (buffer count : ℕ)
    → IsValid ioq
    → let size = min count (length (contents ioq)) in
      (m' : Memory) × (ioq' : IoQueue) × (woken : List ℕ) × (pipe_read cur ioq m buffer count
        ≡ done (size, m') ioq' woken)
      × Moved ioq m buffer size ioq' m'
unfolding pipe_read
pipe_read_lem cur ioq m buffer count v =
    let size : (if ltb count (ioq_lenth ioq) then count else ioq_lenth ioq)
        ≡ min count (length (contents ioq)) =
      ground (arith, length-contents ioq) in
    rw size (
      read_loop_lem (min count (length (contents ioq))) cur ioq m buffer 0
        (min count (length (contents ioq))) [] v (omega arith) (omega arith)
        (omega (arith, length-contents ioq, ioq_lenth-lt ioq v)))
