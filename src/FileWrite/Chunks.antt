-- ===== src/FileWrite/Chunks.antt =====
-- The loop of `file_write` ends, and puts the bytes into the blocks of the file.
use seeking_os.Prelude.{
  ℕ, zero, suc, ◌+◌, ◌-◌, ◌*◌, ◌/◌, ◌%◌, ◌^◌, ◌≤◌, ◌<◌, ◌≡◌, refl, sym, ◌≢◌, ◌∙◌, ◌⊎◌, inl, inr,
  arith, Bool, true, false, ◌&&◌, Memory, ok, ◌==◌, Bool-cases, ltb, leb, if◌then◌else◌, add32,
  sub32,
}
use seeking_os.Str.{fill}
use seeking_os.Str.Copy.{Apart, memcpy_lem}
use seeking_os.Inode.{read_sectors, write_sectors}
use seeking_os.FileRead.{chunk_size}
use seeking_os.FileRead.Bytes.{fill_lem}
use seeking_os.FileRead.Loop.{chunk_size_lem, sector_byte, outside_io}
use seeking_os.FileWrite.{write_chunks}

-- Where byte `p` of the file stands on the disk
abbrev pub place : (ℕ → ℕ) → ℕ → ℕ
place blocks p = blocks (p / 512) * 512 + p % 512

-- The buffer in a round: the sector, or zeros
abbrev buffer : Bool → Memory → ℕ → Memory → ℕ → Memory
buffer first disk lba m io =
    if first then read_sectors disk lba (fill m io 0 512) io 1 else fill m io 0 512

buffer-outside :
    (first : Bool) (disk : Memory) (lba : ℕ) (m : Memory) (io a : ℕ)
    → (leb io a && ltb a (io + 512)) ≡ false
    → buffer first disk lba m io a ≡ m a
buffer-outside true disk lba m io a out = sector_byte disk lba m io a ∙ rw out refl
buffer-outside false disk lba m io a out = fill_lem 512 m io 0 a ∙ rw out refl

Apart-chunk :
    (src left io c off : ℕ)
    → Apart src left io 512
    → c ≤ left
    → off + c ≤ 512
    → Apart (io + off) c src c × Apart (src + c) (left - c) io 512
Apart-chunk src left io c off (inl before) le fits = (inr (omega arith), inl (omega arith))
Apart-chunk src left io c off (inr behind) le fits = (inl (omega arith), inr (omega arith))

-- The first round keeps what stands in front.
buffer-head :
    (first : Bool) (disk : Memory) (lba : ℕ) (m : Memory) (io k : ℕ)
    → first ≡ true
    → k < 512
    → buffer first disk lba m io (io + k) ≡ disk (lba * 512 + k)
buffer-head true disk lba m io k e lt = sector_byte disk lba m io (io + k) ∙ ground arith
buffer-head false disk lba m io k e lt = absurd cc

clear_of_chunk :
    (src left io c off k : ℕ)
    → Apart src left io 512
    → k < left
    → off + c ≤ 512
    → (src + k < io + off) ⊎ (io + off + c ≤ src + k)
clear_of_chunk src left io c off k (inl before) lt fits = inl (omega arith)
clear_of_chunk src left io c off k (inr behind) lt fits = inr (omega arith)

-- What the sector holds after a round
sector_after :
    (disk : Memory) (lba : ℕ) (m : Memory) (io d : ℕ)
    → write_sectors disk lba m io 1 d ≡ (if d / 512 == lba then m (io + d % 512) else disk d)
unfolding write_sectors
sector_after disk lba m io d = ground arith

pub write_chunks_lem :
    (n : ℕ) (disk : Memory) (blocks : ℕ → ℕ) (io : ℕ) (m : Memory) (src : ℕ) (first : Bool)
    (size pos count written left end pos' : ℕ)
    → size + left ≡ end
    → (if left == 0 then pos else add32 pos left) ≡ pos'
    → 0 < io
    → 0 < src
    → Apart src left io 512
    → written + left ≡ count
    → (size + left < 2 ^ 31) × (count < 2 ^ 31)
    → left < n
    → (0 < left → (first ≡ true) ⊎ (size % 512 ≡ 0))
    → ((i j : ℕ) → size / 512 ≤ i → i < j → j ≤ (size + left) / 512 → blocks i ≢ blocks j)
    → (disk' m' : Memory) × (write_chunks n disk blocks io m src first size pos count written left
        ≡ ok (count, disk', end, pos', m'))
      × ((k : ℕ) → k < left → disk' (place blocks (size + k)) ≡ m (src + k))
      × ((d : ℕ) → ((k : ℕ) → k < left → d / 512 ≢ blocks ((size + k) / 512)) → disk' d ≡ disk d)
      × ((k : ℕ)
          → k < size % 512
          → disk' (blocks (size / 512) * 512 + k) ≡ disk (blocks (size / 512) * 512 + k))
unfolding write_chunks
write_chunks_lem zero disk blocks io m src first size pos count written left end pos' e-end e-pos pi
      ps apart e small fuel whole distinct =
    absurd (omega arith)
write_chunks_lem (suc n) disk blocks io m src first size pos count written left end pos' e-end e-pos
      pi ps apart e small fuel whole distinct =
    elim (Bool-cases (ltb written count)) [
      | inr all ↦
          let none_ : left ≡ 0 = ground arith in
          let total : written ≡ count = omega arith in
          let stay : size ≡ end = omega arith in
          let same_pos : pos ≡ pos' = ground arith in
          (
            disk,
            m,
            rw (all, total, stay, same_pos) refl,
            λ k lt. absurd (omega arith),
            λ d out. refl,
            λ k lt. refl,
          )
      | inl more ↦
          let off = size % 512 in
          let (some_, few, fits, full) = chunk_size_lem left off (ground arith) (omega arith) in
          let c = chunk_size left off in
          let lba = blocks (size / 512) in
          let m₁ = buffer first disk lba m io in
          let (parts, rest_apart) = Apart-chunk src left io c off apart few fits in
          let (m₂, copied, inside, outside) =
            memcpy_lem c m₁ (io + off) src (omega arith) ps parts in
          let disk₁ = write_sectors disk lba m₂ io 1 in
          let after = sector_after disk lba m₂ io in
          let (disk', m', ran, bytes, same, head) =
            write_chunks_lem n disk₁ blocks io m₂ (src + c) false (size + c) (add32 pos c) count
              (written + c) (left - c) end pos' (omega arith) (ground arith) pi (omega arith)
              rest_apart (omega arith) (omega arith, omega arith) (omega arith)
              (λ some_more. inr (omega (arith, full (omega arith))))
              (λ i j lo lt hi. distinct i j (omega arith) lt (omega arith)) in
          let next : (k : ℕ) → k < left - c → size / 512 < (size + c + k) / 512 =
            λ k lt. omega (arith, full (omega arith)) in
          let elsewhere : (d : ℕ) → d / 512 ≡ lba → disk' d ≡ m₂ (io + d % 512) = λ d at.
            let kept = same d (λ k lt eq.
              distinct (size / 512) ((size + c + k) / 512) (omega arith) (next k lt) (omega arith)
                (sym at ∙ eq)) in
            let here : (d / 512 == lba) ≡ true = ground arith in kept ∙ after d ∙ rw here refl in
          let new_size : add32 size c ≡ size + c = ground arith in
          let new_written : add32 written c ≡ written + c = ground arith in
          let rest : sub32 left c ≡ left - c = ground arith in
          (
            disk',
            m',
            rw (more, copied, new_size, new_written, rest) ran,
            λ k lt. elim (Bool-cases (ltb k c)) [
              | inl now ↦
                  let k<c : k < c = ground arith in
                  let sector : place blocks (size + k) ≡ lba * 512 + (off + k) =
                    let s : (size + k) / 512 ≡ size / 512 = omega arith in
                    let b : (size + k) % 512 ≡ off + k = omega arith in rw (s, b) refl in
                  let there = elsewhere (lba * 512 + (off + k)) (omega arith) in
                  let byte : io + (lba * 512 + (off + k)) % 512 ≡ io + off + k = omega arith in
                  let clear = outside_io src left io k apart lt in
                  rw sector (
                    there
                    ∙ rw byte (inside k k<c)
                    ∙ buffer-outside first disk lba m io (src + k) clear)
              | inr later ↦
                  let c≤k : c ≤ k = ground arith in
                  let at : size + c + (k - c) ≡ size + k = omega arith in
                  let from : src + c + (k - c) ≡ src + k = omega arith in
                  let clear = outside_io src left io k apart lt in
                  let wrote = bytes (k - c) (omega arith) in
                  let kept = outside (src + k) (clear_of_chunk src left io c off k apart lt fits) in
                  rw (at, from) at wrote ∙ kept ∙ buffer-outside first disk lba m io (src + k) clear
            ],
            λ d out.
                let here : (d / 512 == lba) ≡ false =
                  let apart_here = out 0 (omega arith) in ground (arith, apart_here) in
                let kept = same d (λ k lt eq.
                  let at : size + (c + k) ≡ size + c + k = omega arith in
                  out (c + k) (omega arith) (rw at eq)) in
                kept ∙ after d ∙ rw here refl,
            λ k lt.
                let there = elsewhere (lba * 512 + k) (omega arith) in
                let byte : io + (lba * 512 + k) % 512 ≡ io + k = omega arith in
                let kept = outside (io + k) (inl (omega arith)) in
                let k<off : k < size % 512 = lt in
                let held : m₁ (io + k) ≡ disk (lba * 512 + k) = elim (whole (omega arith)) [
                  | inl is_first ↦ buffer-head first disk lba m io k is_first (omega arith)
                  | inr full_sector ↦ absurd (omega arith)
                ] in
                there ∙ rw byte (kept ∙ held),
          )
    ]
