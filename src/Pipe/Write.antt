-- ===== src/Pipe/Write.antt =====
-- `pipe_write`: what it does depends on the room that is left in the ring.
use seeking_os.Prelude.{
  ℕ, zero, suc, ◌+◌, ◌-◌, ◌^◌, ◌≤◌, ◌<◌, ◌≡◌, sym, ◌∙◌, ap, none, some, List, [], ◌∷◌, ◌++◌, arith,
  Memory, length, length-append, add32, ltb, if◌then◌else◌,
}
use mathlib.Core.List.{append-nil, append_assoc}
use seeking_os.IoQueue.{IoQueue, done, sleeps, bufsize, ioq_lenth}
use seeking_os.IoQueue.Locking.{free_lock, held_lock}
use seeking_os.IoQueue.Contents.{
  IsValid, contents, putchar_done, putchar_sleeps, length-contents, ioq_lenth-lt,
}
use seeking_os.Pipe.{write_loop, pipe_write}

-- The `n` bytes of memory from `p` on
abbrev pub bytes_at : Memory → ℕ → ℕ → List ℕ
bytes_at m p zero = []
bytes_at m p (suc n) = m p ∷ bytes_at m (p + 1) n

length_put :
    (ioq q : IoQueue) (byte : ℕ)
    → contents q ≡ contents ioq ++ (byte ∷ [])
    → length (contents q) ≡ length (contents ioq) + 1
length_put ioq q byte back = omega (arith, ap length back, length-append (contents ioq) (byte ∷ []))

write_loop_lem :
    (n cur : ℕ) (ioq : IoQueue) (m : Memory) (buffer start total : ℕ) (woken : List ℕ)
    → IsValid ioq
    → length (contents ioq) + n < bufsize
    → start + n ≡ total
    → total < 2 ^ 32
    → (ioq' : IoQueue) × (woken' : List ℕ) × (write_loop n cur ioq m buffer start woken
        ≡ done total ioq' woken')
      × (contents ioq' ≡ contents ioq ++ bytes_at m buffer n)
      × IsValid ioq'
unfolding write_loop
write_loop_lem zero cur ioq m buffer start total woken v room e small =
    let end : start ≡ total = omega arith in (ioq, woken, rw end, sym (append-nil _), v)
write_loop_lem (suc n) cur ioq m buffer start total woken v room e small =
    let (q, w, put, back, v', p, l) = putchar_done cur ioq (m buffer) v (omega arith) in
    let longer : length (contents q) ≡ length (contents ioq) + 1 =
      length_put ioq q (m buffer) back in
    let (q', w', ran, all, v'') =
      write_loop_lem n cur q m (buffer + 1) (add32 start 1) total (woken ++ w) v' (omega arith)
        (omega arith) small in
    (
      q',
      w',
      rw (put, write_loop) ran,
      all
          ∙ ap (λ l. l ++ bytes_at m (buffer + 1) n) back
          ∙ append_assoc (contents ioq) (m buffer ∷ []) _,
      v'',
    )

-- On a ring with both positions in the buffer, where the bytes fit beside those that the ring
-- holds, in all at most `bufsize - 1`, `pipe_write` returns without sleeping, has appended exactly
-- them in order, and returns their number.
pub pipe_write-fits :
    (cur : ℕ) (ioq : IoQueue) (m : Memory) (buffer count : ℕ)
    → IsValid ioq
    → length (contents ioq) + count < bufsize
    → (ioq' : IoQueue) × (woken : List ℕ) × (pipe_write cur ioq m buffer count
        ≡ done count ioq' woken)
      × (contents ioq' ≡ contents ioq ++ bytes_at m buffer count)
      × IsValid ioq'
unfolding pipe_write
pipe_write-fits cur ioq m buffer count v fits =
    let size : (if ltb count (bufsize - ioq_lenth ioq) then count else bufsize - ioq_lenth ioq)
        ≡ count =
      ground (arith, length-contents ioq) in
    rw size (write_loop_lem count cur ioq m buffer 0 count [] v fits (omega arith) (omega arith))

-- The loop with one byte more than there is room for
write_loop_sleeps :
    (n cur : ℕ) (ioq : IoQueue) (m : Memory) (buffer start : ℕ) (woken ws : List ℕ)
    → IsValid ioq
    → length (contents ioq) + n ≡ bufsize
    → ioq.lock ≡ free_lock ws
    → ioq.producer ≡ none
    → (ioq' : IoQueue) × (write_loop n cur ioq m buffer start woken ≡ sleeps ioq')
      × (length (contents ioq') ≡ bufsize - 1)
      × (ioq'.producer ≡ some cur)
      × (ioq'.lock ≡ held_lock cur ws)
unfolding write_loop
write_loop_sleeps zero cur ioq m buffer start woken ws v full lock free =
    absurd (omega (arith, length-contents ioq, ioq_lenth-lt ioq v))
write_loop_sleeps (suc zero) cur ioq m buffer start woken ws v full lock free =
    let (q, asleep, still, noted, held) =
      putchar_sleeps cur ioq (m buffer) ws v (omega arith) lock free in
    (q, rw (asleep, write_loop), still, noted, held)
write_loop_sleeps (suc (suc n)) cur ioq m buffer start woken ws v full lock free =
    let (q, w, put, back, v', p, l) = putchar_done cur ioq (m buffer) v (omega arith) in
    let longer : length (contents q) ≡ length (contents ioq) + 1 =
      length_put ioq q (m buffer) back in
    let (q', asleep, still, noted, held) =
      write_loop_sleeps (suc n) cur q m (buffer + 1) (add32 start 1) (woken ++ w) ws v'
        (omega arith) (l ∙ lock) (p ∙ free) in
    (q', rw (put, write_loop) asleep, still, noted, held)

-- On a ring with both positions in the buffer, whose lock nobody has and where no producer is
-- noted, `pipe_write` of bytes that do not fit fills the ring with `bufsize - 1` bytes and sleeps
-- as its producer, with the lock.
pub pipe_write_sleeps :
    (cur : ℕ) (ioq : IoQueue) (m : Memory) (buffer count : ℕ) (ws : List ℕ)
    → IsValid ioq
    → bufsize ≤ length (contents ioq) + count
    → ioq.lock ≡ free_lock ws
    → ioq.producer ≡ none
    → (ioq' : IoQueue) × (pipe_write cur ioq m buffer count ≡ sleeps ioq')
      × (length (contents ioq') ≡ bufsize - 1)
      × (ioq'.producer ≡ some cur)
      × (ioq'.lock ≡ held_lock cur ws)
unfolding pipe_write
pipe_write_sleeps cur ioq m buffer count ws v over lock free =
    let size : (if ltb count (bufsize - ioq_lenth ioq) then count else bufsize - ioq_lenth ioq)
        ≡ bufsize - ioq_lenth ioq =
      ground (arith, length-contents ioq) in
    rw size (
      write_loop_sleeps (bufsize - ioq_lenth ioq) cur ioq m buffer 0 [] ws v
        (omega (arith, length-contents ioq, ioq_lenth-lt ioq v)) lock free)
