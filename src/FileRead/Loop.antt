-- ===== src/FileRead/Loop.antt =====
-- The loop of `file_read` ends, and brings the bytes of the file to the buffer.
use seeking_os.Prelude.{
  ℕ, zero, suc, ◌+◌, ◌-◌, ◌*◌, ◌/◌, ◌%◌, ◌^◌, ◌≤◌, ◌<◌, ◌≡◌, refl, ◌∙◌, inl, inr, arith, false,
  ◌&&◌, Memory, ok, Bool-cases, ltb, leb, if◌then◌else◌, add32, sub32,
}
use seeking_os.Str.{fill}
use seeking_os.Str.Copy.{Apart, memcpy_lem}
use seeking_os.Inode.{read_sectors}
use seeking_os.FileRead.{chunk_size, read_chunks}
use seeking_os.FileRead.Bytes.{fill_lem}

-- A byte of the sector in `io_buf`, and what stays outside of it
pub sector_byte :
    (disk : Memory) (lba : ℕ) (m : Memory) (io a : ℕ)
    → read_sectors disk lba (fill m io 0 512) io 1 a
      ≡ (if leb io a && ltb a (io + 512) then disk (lba * 512 + (a - io)) else m a)
unfolding read_sectors
sector_byte disk lba m io a = ground (arith, fill_lem 512 m io 0 a)

-- The parts of two regions apart are apart.
pub Apart-parts :
    (dst left io c off : ℕ)
    → Apart dst left io 512
    → c ≤ left
    → off + c ≤ 512
    → Apart dst c (io + off) c × Apart (dst + c) (left - c) io 512
Apart-parts dst left io c off (inl before) le fits = (inl (omega arith), inl (omega arith))
Apart-parts dst left io c off (inr behind) le fits = (inr (omega arith), inr (omega arith))

pub outside_io :
    (dst left io k : ℕ)
    → Apart dst left io 512
    → k < left
    → (leb io (dst + k) && ltb (dst + k) (io + 512)) ≡ false
outside_io dst left io k (inl before) lt = ground arith
outside_io dst left io k (inr behind) lt = ground arith

pub chunk_size_lem :
    (left off : ℕ)
    → 0 < left
    → off < 512
    → (0 < chunk_size left off)
      × (chunk_size left off ≤ left)
      × (off + chunk_size left off ≤ 512)
      × (chunk_size left off < left → off + chunk_size left off ≡ 512)
unfolding chunk_size
chunk_size_lem left off some_ inside = ground arith

pub read_chunks_lem :
    (n : ℕ) (disk : Memory) (blocks : ℕ → ℕ) (io : ℕ) (m : Memory) (dst p size done left : ℕ)
    → 0 < io
    → 0 < dst
    → Apart dst left io 512
    → done + left ≡ size
    → (p + left < 2 ^ 31) × (size < 2 ^ 31)
    → left < n
    → (m' : Memory) × (read_chunks n disk blocks io m dst p size done left
        ≡ ok (size, m', p + left))
      × ((k : ℕ) → k < left → m' (dst + k) ≡ disk (blocks ((p + k) / 512) * 512 + (p + k) % 512))
      × ((a : ℕ)
          → (leb dst a && ltb a (dst + left)) ≡ false
          → (leb io a && ltb a (io + 512)) ≡ false
          → m' a ≡ m a)
unfolding read_chunks
read_chunks_lem zero disk blocks io m dst p size done left pi pd apart e small fuel =
    absurd (omega arith)
read_chunks_lem (suc n) disk blocks io m dst p size done left pi pd apart e small fuel =
    elim (Bool-cases (ltb done size)) [
      | inr all ↦
          let none_ : left ≡ 0 = ground arith in
          let end : done ≡ size = omega arith in
          let stay : p ≡ p + left = omega arith in
          (
            m,
            rw (all, none_, end) (rw (← none_, ← stay) refl),
            λ k lt. absurd (omega arith),
            λ a out out'. refl,
          )
      | inl more ↦
          let off = p % 512 in
          let (some_, few, fits, full) = chunk_size_lem left off (ground arith) (omega arith) in
          let c = chunk_size left off in
          let lba = blocks (p / 512) in
          let m₁ = read_sectors disk lba (fill m io 0 512) io 1 in
          let (parts, rest_apart) = Apart-parts dst left io c off apart few fits in
          let (m₂, copied, inside, outside) =
            memcpy_lem c m₁ dst (io + off) pd (omega arith) parts in
          let (m', ran, bytes, same) =
            read_chunks_lem n disk blocks io m₂ (dst + c) (p + c) size (done + c) (left - c) pi
              (omega arith) rest_apart (omega arith) (omega arith, omega arith) (omega arith) in
          let pos : add32 p c ≡ p + c = ground arith in
          let count : add32 done c ≡ done + c = ground arith in
          let rest : sub32 left c ≡ left - c = ground arith in
          let end : p + c + (left - c) ≡ p + left = omega arith in
          (
            m',
            rw (more, copied, pos, count, rest) (ran ∙ rw end refl),
            λ k lt. elim (Bool-cases (ltb k c)) [
              | inl now ↦
                  let k<c : k < c = ground arith in
                  let clear = outside_io dst left io k apart lt in
                  let kept = same (dst + k) (ground arith) clear in
                  let here = inside k k<c in
                  let got = sector_byte disk lba m io (io + off + k) in
                  let sector : (p + k) / 512 ≡ p / 512 = omega arith in
                  let byte : (p + k) % 512 ≡ off + k = omega arith in
                  rw (kept, here, got, sector, byte) (ground arith)
              | inr later ↦
                  let c≤k : c ≤ k = ground arith in
                  let at : dst + c + (k - c) ≡ dst + k = omega arith in
                  let from : p + c + (k - c) ≡ p + k = omega arith in
                  rw (at, from) at (bytes (k - c) (omega arith))
            ],
            λ a out out'.
                let kept = same a (ground arith) out' in
                let untouched = outside a (ground arith) in
                let got = sector_byte disk lba m io a in rw (kept, untouched, got, out') refl,
          )
    ]
