-- ===== src/Directory.antt =====
-- fs/dir.c: `search_dir_entry`, from the bytes of the disk to the entry that the caller gets.
-- `all_blocks` is what `sys_malloc` gives, `none` for NULL; the result for `buf` is not tested. As in
-- `FileRead`, the transfers are of one sector, and `all_blocks` is the array of words that it holds.
pub mod Sector
pub mod Search
pub mod Blocks
pub mod First
pub mod Whole
mod Tests
use seeking_os.Prelude.{
  ℕ, zero, suc, ◌+◌, ◌-◌, ◌*◌, ◌/◌, Bool, true, false, Memory, Outcome, ok, ◌>>=◌, Option, none,
  some, ◌==◌, if◌then◌else◌,
}
use seeking_os.Str.{Sign, strcmp, memcpy, fill}
use seeking_os.Inode.{Inode, read_sectors, sector_size}
use seeking_os.FileRead.{copy_sectors, read_table}

-- `sizeof(struct dir_entry)`: 16 bytes of the name, the number of the inode and the type
abbrev pub entry_bytes : ℕ
entry_bytes = 24

-- `!strcmp(...)`
abbrev pub is_same : Sign → Bool
is_same Sign.minus = false
is_same Sign.nil = true
is_same Sign.plus = false

-- The loop over the entries of a sector, with those to go: the address of the one with the name
unfoldable pub search_sector : ℕ → ℕ → Memory → ℕ → ℕ → Outcome (Option ℕ)
search_sector zero n m p_de name = ok none
search_sector (suc left) n m p_de name = do
  compared ← strcmp n m p_de name
  elim (is_same compared) [
    | true ↦ ok (some p_de)
    | false ↦ search_sector left n m (p_de + entry_bytes) name
  ]

-- The loop over the blocks, with those to go
unfoldable pub search_blocks :
    ℕ → ℕ → Memory → (ℕ → ℕ) → ℕ → ℕ → Memory → ℕ → ℕ → Outcome (Option ℕ × Memory)
search_blocks zero n disk all_blocks buf dir_entry_cnt m name block_idx = ok (none, m)
search_blocks (suc left) n disk all_blocks buf dir_entry_cnt m name block_idx =
    elim (all_blocks block_idx == 0) [
      | true ↦ search_blocks left n disk all_blocks buf dir_entry_cnt m name (block_idx + 1)
      | false ↦ (do
        let m₁ : Memory = read_sectors disk (all_blocks block_idx) m buf 1
        found ← search_sector dir_entry_cnt n m₁ buf name
        elim found [
          | some p_de ↦ ok (some p_de, m₁)
          | none ↦
              search_blocks left n disk all_blocks buf dir_entry_cnt (fill m₁ buf 0 sector_size)
                name (block_idx + 1)
        ])
    ]

-- The blocks of a directory: the twelve direct ones, and those in the table if there is one
unfoldable pub all_blocks_of : Memory → Inode → (ℕ → ℕ) → ℕ → ℕ
all_blocks_of disk inode all_blocks =
    let direct = copy_sectors 12 inode 0 all_blocks in
    if inode.i_sectors 12 == 0 then direct else read_table disk (inode.i_sectors 12) direct

-- Whether there is such an entry, and the memory with it at `dir_e`; `dir_entry_size` is not 0.
unfoldable pub search_dir_entry :
    ℕ → Memory → Inode → ℕ → Memory → ℕ → ℕ → Option (ℕ → ℕ) → ℕ → Outcome (Bool × Memory)
search_dir_entry n disk inode dir_entry_size m name dir_e all_blocks buf = elim all_blocks [
  | none ↦ ok (false, m)
  | some blocks ↦ (do
    searched ←
        search_blocks 140 n disk (all_blocks_of disk inode blocks) buf
          (sector_size / dir_entry_size) m name 0
    elim (searched.0) [
      | some p_de ↦ (do copied ← memcpy searched.1 dir_e p_de dir_entry_size; ok (true, copied))
      | none ↦ ok (false, searched.1)
    ])
]
