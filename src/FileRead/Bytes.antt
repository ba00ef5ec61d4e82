-- ===== src/FileRead/Bytes.antt =====
-- The bytes of a file on the disk, and the addresses of its blocks.
use seeking_os.Prelude.{
  ℕ, zero, suc, ◌+◌, ◌-◌, ◌*◌, ◌/◌, ◌%◌, ◌≤◌, ◌<◌, ◌≡◌, refl, ◌≢◌, arith, false, ◌&&◌, Memory,
  store, ok, ◌==◌, Bool-cases, inl, inr, ltb, leb, if◌then◌else◌, sub32,
}
use seeking_os.Str.{fill}
use seeking_os.Inode.{Inode, word_at}
use seeking_os.FileRead.{read_table, copy_sectors, blocks_to_read}

-- Twelve blocks are direct, the others are in the table.
abbrev pub block_at : Memory → Inode → ℕ → ℕ
block_at disk inode k =
    if ltb k 12 then inode.i_sectors k else word_at disk (inode.i_sectors 12 * 512) (k - 12)

-- Byte `p` of the file
abbrev pub file_byte : Memory → Inode → ℕ → ℕ
file_byte disk inode p = disk (block_at disk inode (p / 512) * 512 + p % 512)

pub fill_lem :
    (n : ℕ) (m : Memory) (dst v a : ℕ)
    → fill m dst v n a ≡ (if leb dst a && ltb a (dst + n) then v else m a)
unfolding fill
fill_lem zero m dst v a = ground arith
fill_lem (suc n) m dst v a = ground (arith, fill_lem n (store m dst v) (dst + 1) v a)

pub copy_sectors_lem :
    (n : ℕ) (inode : Inode) (from : ℕ) (all_blocks : ℕ → ℕ) (i : ℕ)
    → copy_sectors n inode from all_blocks i
      ≡ (if leb from i && ltb i (from + n) then inode.i_sectors i else all_blocks i)
unfolding copy_sectors
copy_sectors_lem zero inode from all_blocks i = ground arith
copy_sectors_lem (suc n) inode from all_blocks i =
    let rest =
      copy_sectors_lem n inode (from + 1)
        (λ j. if j == from then inode.i_sectors from else all_blocks j) i in
    elim (Bool-cases (i == from)) [
      | inl here ↦ let e : i ≡ from = ground arith in rw (rest, here, e) (ground arith)
      | inr off ↦ rw (rest, off) (ground arith)
    ]

-- The blocks that are collected for the sectors from `start` to `end` are those of the file.
pub blocks_to_read_lem :
    (disk : Memory) (inode : Inode) (start end : ℕ) (all_blocks : ℕ → ℕ)
    → start ≤ end
    → end < 140
    → (12 ≤ end → inode.i_sectors 12 ≢ 0)
    → (collected : ℕ → ℕ) × (blocks_to_read disk inode start end all_blocks ≡ ok collected)
      × ((k : ℕ) → start ≤ k → k ≤ end → collected k ≡ block_at disk inode k)
unfolding blocks_to_read read_table
blocks_to_read_lem disk inode start end all_blocks le few table =
    elim (Bool-cases (sub32 end start == 0)) [
      | inl one ↦
          let e : start ≡ end = ground arith in
          elim (Bool-cases (ltb end 12)) [
            | inl direct ↦ (
              copy_sectors 1 inode end all_blocks,
              rw (one, direct) refl,
              λ k lo hi. rw copy_sectors_lem (ground arith),
            )
            | inr indirect ↦ (
              read_table disk (inode.i_sectors 12) all_blocks,
              rw (one, indirect) refl,
              λ k lo hi. ground arith,
            )
          ]
      | inr more ↦ elim (Bool-cases (ltb end 12)) [
        | inl direct ↦ (
          copy_sectors (end + 1 - start) inode start all_blocks,
          rw (more, direct) refl,
          λ k lo hi. rw copy_sectors_lem (ground arith),
        )
        | inr indirect ↦
            let there = table (ground arith) in
            let real : (inode.i_sectors 12 == 0) ≡ false = ground (arith, there) in
            elim (Bool-cases (ltb start 12)) [
              | inl both ↦ (
                read_table disk (inode.i_sectors 12)
                    (copy_sectors (12 - start) inode start all_blocks),
                rw (more, indirect, real, both) refl,
                λ k lo hi.
                    let copied = copy_sectors_lem (12 - start) inode start all_blocks k in
                    ground (arith, copied),
              )
              | inr far ↦ (
                read_table disk (inode.i_sectors 12) all_blocks,
                rw (more, indirect, real, far) refl,
                λ k lo hi. ground arith,
              )
            ]
      ]
    ]
