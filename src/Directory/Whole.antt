-- ===== src/Directory/Whole.antt =====
-- `search_dir_entry` over the blocks of a directory.
use seeking_os.Prelude.{
  ℕ, ◌+◌, ◌-◌, ◌*◌, ◌≤◌, ◌<◌, ◌≡◌, refl, ◌∙◌, ◌⊎◌, inl, inr, true, false, Bool-cases, List, arith,
  Memory, IsBytes, none, some, ok, length, ◌==◌, ltb, if◌then◌else◌,
}
use seeking_os.Str.{memcpy}
use seeking_os.Str.Cstr.{IsCstr}
use seeking_os.Str.Copy.{Apart, memcpy_lem}
use seeking_os.Inode.{Inode, word_at, sector_size}
use seeking_os.FileRead.{read_table}
use seeking_os.FileRead.Bytes.{copy_sectors_lem}
use seeking_os.Directory.{entry_bytes, all_blocks_of, search_blocks, search_dir_entry}
use seeking_os.Directory.Search.{Named, SameBut, Nowhere}
use seeking_os.Directory.Blocks.{IsFirstEntry}
use seeking_os.Directory.First.{search_blocks_lem}

-- Twelve blocks are direct, the others are in the table, 0 stands for none.
abbrev pub dir_block : Memory → Inode → ℕ → ℕ
dir_block disk inode k =
    if ltb k 12
    then inode.i_sectors k
    else if inode.i_sectors 12 == 0
    then 0
    else word_at disk (inode.i_sectors 12 * sector_size) (k - 12)

-- `all_blocks` has zeros behind the direct blocks, as `sys_malloc` leaves it.
all_blocks_of_lem :
    (disk : Memory) (inode : Inode) (blocks : ℕ → ℕ) (k : ℕ)
    → ((i : ℕ) → 12 ≤ i → i < 140 → blocks i ≡ 0)
    → k < 140
    → all_blocks_of disk inode blocks k ≡ dir_block disk inode k
unfolding all_blocks_of read_table
all_blocks_of_lem disk inode blocks k fresh lt =
    let copied = copy_sectors_lem 12 inode 0 blocks k in
    elim (Bool-cases (inode.i_sectors 12 == 0)) [
      | inl no_table ↦ rw no_table (ground (arith, copied, fresh k))
      | inr table ↦ rw table (ground (arith, copied))
    ]

-- What the whole function does with the loop's result
with_entry :
    (n : ℕ) (disk : Memory) (inode : Inode) (m m₁ m₂ : Memory) (name dir_e : ℕ) (blocks : ℕ → ℕ)
    (buf p_de : ℕ)
    → search_blocks 140 n disk (all_blocks_of disk inode blocks) buf 21 m name 0
      ≡ ok (some p_de, m₁)
    → memcpy m₁ dir_e p_de entry_bytes ≡ ok m₂
    → search_dir_entry n disk inode entry_bytes m name dir_e (some blocks) buf ≡ ok (true, m₂)
unfolding search_dir_entry
with_entry n disk inode m m₁ m₂ name dir_e blocks buf p_de ran copied = rw (ran, copied) refl

without_entry :
    (n : ℕ) (disk : Memory) (inode : Inode) (m m₁ : Memory) (name dir_e : ℕ) (blocks : ℕ → ℕ)
    (buf : ℕ)
    → search_blocks 140 n disk (all_blocks_of disk inode blocks) buf 21 m name 0 ≡ ok (none, m₁)
    → search_dir_entry n disk inode entry_bytes m name dir_e (some blocks) buf ≡ ok (false, m₁)
unfolding search_dir_entry
without_entry n disk inode m m₁ name dir_e blocks buf ran = rw ran refl

-- For entries of 24 bytes whose names are strings on the disk that end within their sectors, with a
-- buffer apart from the name and from the entry of the caller, `search_dir_entry` ends, with fuel
-- beyond each name; it brings the first entry, in the order of blocks and entries, that has the
-- name to the caller and returns true, or returns false, and then no entry of a used block has the
-- name; no other byte outside the buffer has changed.
pub search_dir_entry_lem :
    (n : ℕ) (disk : Memory) (inode : Inode) (m : Memory) (name dir_e : ℕ) (blocks : ℕ → ℕ) (buf : ℕ)
    (names : ℕ → ℕ → List ℕ) (ys : List ℕ)
    → Named disk (dir_block disk inode) 21 n names
    → IsBytes disk
    → IsBytes m
    → IsCstr m name ys
    → 0 < name
    → 0 < buf
    → 0 < dir_e
    → (name + length ys < buf) ⊎ (buf + sector_size ≤ name)
    → Apart dir_e entry_bytes buf sector_size
    → ((i : ℕ) → 12 ≤ i → i < 140 → blocks i ≡ 0)
    → ((k : ℕ) × (e : ℕ) × (m' : Memory) × (k < 140)
        × IsFirstEntry (dir_block disk inode) 21 names ys 0 k e
        × (search_dir_entry n disk inode entry_bytes m name dir_e (some blocks) buf ≡ ok (true, m'))
        × ((i : ℕ)
            → i < entry_bytes
            → m' (dir_e + i) ≡ disk (dir_block disk inode k * sector_size + (e * entry_bytes + i)))
        × ((a : ℕ)
            → (a < buf) ⊎ (buf + sector_size ≤ a)
            → (a < dir_e) ⊎ (dir_e + entry_bytes ≤ a)
            → m' a ≡ m a))
      ⊎ ((m' : Memory) × (search_dir_entry n disk inode entry_bytes m name dir_e (some blocks) buf
            ≡ ok (false, m'))
          × Nowhere (dir_block disk inode) 21 names ys 0 140
          × SameBut buf m m')
search_dir_entry_lem n disk inode m name dir_e blocks buf names ys named bd bm s real real' real''
      apart apart' fresh =
    let is_block : (k : ℕ) → k < 140 → all_blocks_of disk inode blocks k ≡ dir_block disk inode k =
      λ k lt. all_blocks_of_lem disk inode blocks k fresh lt in
    let named' : Named disk (all_blocks_of disk inode blocks) 21 n names = record {
      stored = λ k e lt used few.
          rw (is_block k lt) (named.stored k e lt (rw (is_block k lt) at used) few);
      within = named.within;
      short = named.short;
    } in
    elim (search_blocks_lem 140 n disk (all_blocks_of disk inode blocks) buf 21 m name 0 names ys
      named' bd bm s real real' apart (omega arith)) [
        | inl (k, e, m₁, lo, hi, (used, few, first, nowhere), ran, held, same) ↦
            let (m₂, copied, inside, outside) =
              memcpy_lem entry_bytes m₁ dir_e (buf + e * entry_bytes) real'' (omega arith)
                (ground arith) in
            inl (
              k,
              e,
              m₂,
              hi,
              (
                rw (is_block k hi) at used,
                few,
                first,
                λ j i le lt some_ few'.
                    nowhere j i le lt (rw (is_block j (omega arith)) some_) few',
              ),
              with_entry n disk inode m m₁ m₂ name dir_e blocks buf (buf + e * entry_bytes) ran
                  copied,
              λ i lt.
                  let at : buf + e * entry_bytes + i ≡ buf + (e * entry_bytes + i) = omega arith in
                  inside i lt ∙ rw (at, ← is_block k hi) (held (e * entry_bytes + i) (omega arith)),
              λ a off off'. outside a off' ∙ same a off,
            )
        | inr (m₁, ran, nowhere, same) ↦ inr (
          m₁,
          without_entry n disk inode m m₁ name dir_e blocks buf ran,
          λ j i le lt some_ few'. nowhere j i le lt (rw (is_block j lt) some_) few',
          same,
        )
      ]
