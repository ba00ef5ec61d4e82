-- ===== src/Directory/Blocks.antt =====
-- The loop over the blocks finds the first entry with the name.
use seeking_os.Prelude.{
  ℕ, suc, ◌+◌, ◌*◌, ◌≤◌, ◌<◌, ◌≡◌, refl, ◌≢◌, true, false, List, arith, Memory, Option, none, some,
  Outcome, ok, ◌==◌,
}
use seeking_os.Str.{fill}
use seeking_os.Str.Cstr.{IsCstr}
use seeking_os.Inode.{read_sectors, sector_size}
use seeking_os.Directory.{entry_bytes, search_sector, search_blocks}
use seeking_os.Directory.Sector.{IsFirstName}
use seeking_os.Directory.Search.{IsCstr-moved, Named, SameBut, Nowhere, read_in}

pub free_block :
    (left n : ℕ) (disk : Memory) (all_blocks : ℕ → ℕ) (buf count : ℕ) (m : Memory) (name k : ℕ)
    → (all_blocks k == 0) ≡ true
    → search_blocks (suc left) n disk all_blocks buf count m name k
      ≡ search_blocks left n disk all_blocks buf count m name (k + 1)
unfolding search_blocks
free_block left n disk all_blocks buf count m name k free = rw (free, search_blocks) refl

pub block_with :
    (left n : ℕ) (disk : Memory) (all_blocks : ℕ → ℕ) (buf count : ℕ) (m : Memory) (name k p : ℕ)
    → (all_blocks k == 0) ≡ false
    → search_sector count n (read_sectors disk (all_blocks k) m buf 1) buf name ≡ ok (some p)
    → search_blocks (suc left) n disk all_blocks buf count m name k
      ≡ ok (some p, read_sectors disk (all_blocks k) m buf 1)
unfolding search_blocks
block_with left n disk all_blocks buf count m name k p used found =
    rw (used, search_blocks, found) refl

pub block_without :
    (left n : ℕ) (disk : Memory) (all_blocks : ℕ → ℕ) (buf count : ℕ) (m : Memory) (name k : ℕ)
    → (all_blocks k == 0) ≡ false
    → search_sector count n (read_sectors disk (all_blocks k) m buf 1) buf name ≡ ok none
    → search_blocks (suc left) n disk all_blocks buf count m name k
      ≡ search_blocks left n disk all_blocks buf count
          (fill (read_sectors disk (all_blocks k) m buf 1) buf 0 sector_size)
          name
          (k + 1)
unfolding search_blocks
block_without left n disk all_blocks buf count m name k used found =
    rw (used, search_blocks, found) refl

-- The entry `e` of block `k` is the first from block `from` on with the name.
abbrev pub IsFirstEntry : (ℕ → ℕ) → ℕ → (ℕ → ℕ → List ℕ) → List ℕ → ℕ → ℕ → ℕ → Type 0
IsFirstEntry all_blocks count names ys from k e =
    (all_blocks k ≢ 0)
    × (e < count)
    × IsFirstName (names k) ys 0 e
    × Nowhere all_blocks count names ys from k

abbrev pub Found :
    Memory
    → (ℕ → ℕ)
    → ℕ
    → ℕ
    → Memory
    → (ℕ → ℕ → List ℕ)
    → List ℕ
    → ℕ
    → ℕ
    → Outcome (Option ℕ × Memory)
    → Type 0
Found disk all_blocks buf count m names ys from end result =
    (k : ℕ) × (e : ℕ) × (m' : Memory) × (from ≤ k)
    × (k < end)
    × IsFirstEntry all_blocks count names ys from k e
    × (result ≡ ok (some (buf + e * entry_bytes), m'))
    × ((i : ℕ) → i < sector_size → m' (buf + i) ≡ disk (all_blocks k * sector_size + i))
    × SameBut buf m m'

abbrev pub Missing :
    (ℕ → ℕ)
    → ℕ
    → ℕ
    → Memory
    → (ℕ → ℕ → List ℕ)
    → List ℕ
    → ℕ
    → ℕ
    → Outcome (Option ℕ × Memory)
    → Type 0
Missing all_blocks buf count m names ys from end result =
    (m' : Memory) × (result ≡ ok (none, m'))
    × Nowhere all_blocks count names ys from end
    × SameBut buf m m'

-- With the sector in the buffer, the names are in memory.
pub names_in_memory :
    (disk : Memory) (all_blocks : ℕ → ℕ) (count n : ℕ) (names : ℕ → ℕ → List ℕ) (m : Memory)
    (buf k e : ℕ)
    → Named disk all_blocks count n names
    → k < 140
    → all_blocks k ≢ 0
    → e < count
    → IsCstr (read_sectors disk (all_blocks k) m buf 1) (buf + e * entry_bytes) (names k e)
names_in_memory disk all_blocks count n names m buf k e named low used lt =
    let within = named.within k e lt in
    IsCstr-moved (names k e) disk (read_sectors disk (all_blocks k) m buf 1)
      (all_blocks k * sector_size + e * entry_bytes) (buf + e * entry_bytes)
      (named.stored k e low used lt)
      (λ i le.
        let a : buf + e * entry_bytes + i ≡ buf + (e * entry_bytes + i) = omega arith in
        let b : all_blocks k * sector_size + e * entry_bytes + i
            ≡ all_blocks k * sector_size + (e * entry_bytes + i) =
          omega arith in
        rw (a, b) (read_in disk (all_blocks k) m buf (e * entry_bytes + i) (omega arith)))
