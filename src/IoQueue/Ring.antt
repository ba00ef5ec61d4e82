-- ===== src/IoQueue/Ring.antt =====
-- The bytes in the ring, and what its positions say of them.
use seeking_os.Prelude.{
  ℕ, zero, suc, ◌+◌, ◌-◌, ◌%◌, ◌<◌, ◌≡◌, refl, ap, true, false, none, some, List, [], ◌∷◌, ◌++◌,
  arith, Memory, store, length, Option, ◌==◌,
}
use seeking_os.IoQueue.{IoQueue, bufsize, next_pos, ioq_full, ioq_empty, ioq_lenth}

-- Both positions lie in the buffer.
pub record IsValid (ioq : IoQueue) : Type 0 where
  pub head_in : ioq.head < bufsize
  pub tail_in : ioq.tail < bufsize

-- `n` bytes from position `pos` on, going round at the end of the buffer
abbrev pub bytes_from : Memory → ℕ → ℕ → List ℕ
bytes_from buf pos zero = []
bytes_from buf pos (suc n) = buf pos ∷ bytes_from buf (next_pos pos) n

-- What the queue holds, the oldest byte first.
abbrev pub contents : IoQueue → List ℕ
contents ioq = bytes_from ioq.buf ioq.tail (ioq_lenth ioq)

length-bytes_from : (buf : Memory) (pos n : ℕ) → length (bytes_from buf pos n) ≡ n
length-bytes_from buf pos zero = refl
length-bytes_from buf pos (suc n) = ap suc (length-bytes_from buf (next_pos pos) n)

pub length-contents : (ioq : IoQueue) → length (contents ioq) ≡ ioq_lenth ioq
length-contents ioq = length-bytes_from ioq.buf ioq.tail (ioq_lenth ioq)

-- A write just behind the bytes appends to them.
bytes_from-store :
    (n pos : ℕ) (buf : Memory) (h byte : ℕ)
    → pos < bufsize
    → n < bufsize
    → h ≡ (pos + n) % bufsize
    → bytes_from (store buf h byte) pos (suc n) ≡ bytes_from buf pos n ++ (byte ∷ [])
bytes_from-store zero pos buf h byte lt ln e = ground arith
bytes_from-store (suc n) pos buf h byte lt ln e =
    ground (
      arith,
      bytes_from-store n (next_pos pos) buf h byte (omega arith) (omega arith) (omega arith),
    )

pub ioq_lenth-lt : (ioq : IoQueue) → IsValid ioq → ioq_lenth ioq < bufsize
unfolding ioq_lenth
ioq_lenth-lt ioq v = ground arith

-- `ioq_empty` and `ioq_full` by the length
pub empty-lenth : (ioq : IoQueue) → IsValid ioq → ioq_empty ioq ≡ (ioq_lenth ioq == 0)
unfolding ioq_empty ioq_lenth
empty-lenth ioq v = ground arith

pub full-lenth : (ioq : IoQueue) → IsValid ioq → ioq_full ioq ≡ (ioq_lenth ioq == bufsize - 1)
unfolding ioq_full ioq_lenth
full-lenth ioq v = ground arith

-- The queue after the byte at `tail` is taken, and after a byte is put at `head`
abbrev pub taken : IoQueue → IoQueue
taken ioq = record ioq { tail = next_pos ioq.tail }

abbrev pub put : IoQueue → ℕ → IoQueue
put ioq byte = record ioq { buf = store ioq.buf ioq.head byte; head = next_pos ioq.head }

pub lenth-taken :
    (ioq : IoQueue)
    → IsValid ioq
    → ioq_empty ioq ≡ false
    → ioq_lenth ioq ≡ suc (ioq_lenth (taken ioq))
unfolding ioq_empty ioq_lenth
lenth-taken ioq v e = ground arith

pub lenth-put :
    (ioq : IoQueue) (byte : ℕ)
    → IsValid ioq
    → ioq_full ioq ≡ false
    → ioq_lenth (put ioq byte) ≡ suc (ioq_lenth ioq)
unfolding ioq_full ioq_lenth
lenth-put ioq byte v e = ground arith

head_place : (ioq : IoQueue) → IsValid ioq → ioq.head ≡ (ioq.tail + ioq_lenth ioq) % bufsize
unfolding ioq_lenth
head_place ioq v = ground arith

pub contents-taken :
    (ioq : IoQueue)
    → IsValid ioq
    → ioq_empty ioq ≡ false
    → contents ioq ≡ ioq.buf ioq.tail ∷ contents (taken ioq)
contents-taken ioq v e = rw (lenth-taken ioq v e)

pub contents-put :
    (ioq : IoQueue) (byte : ℕ)
    → IsValid ioq
    → ioq_full ioq ≡ false
    → contents (put ioq byte) ≡ contents ioq ++ (byte ∷ [])
contents-put ioq byte v e = rw (lenth-put ioq byte v e) (
    bytes_from-store (ioq_lenth ioq) ioq.tail ioq.buf ioq.head byte v.tail_in (ioq_lenth-lt ioq v)
      (head_place ioq v))

pub contents_empty : (ioq : IoQueue) → IsValid ioq → ioq_empty ioq ≡ true → contents ioq ≡ []
contents_empty ioq v e =
    let zero_lenth : ioq_lenth ioq ≡ 0 = ground (arith, empty-lenth ioq v) in rw zero_lenth

pub length_full :
    (ioq : IoQueue) → IsValid ioq → ioq_full ioq ≡ true → length (contents ioq) ≡ bufsize - 1
length_full ioq v e = ground (arith, full-lenth ioq v, length-contents ioq)

pub length_not_full :
    (ioq : IoQueue) → IsValid ioq → ioq_full ioq ≡ false → length (contents ioq) < bufsize - 1
length_not_full ioq v e = ground (arith, full-lenth ioq v, length-contents ioq, ioq_lenth-lt ioq v)

abbrev pub to_list : Option ℕ → List ℕ
to_list none = []
to_list (some t) = t ∷ []
