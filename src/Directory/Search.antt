-- ===== src/Directory/Search.antt =====
-- The loop over the blocks, with the names that stand on the disk.
use seeking_os.Prelude.{
  ℕ, ◌+◌, ◌-◌, ◌*◌, ◌≤◌, ◌<◌, ◌≡◌, ◌≢◌, ◌⊎◌, List, [], ◌∷◌, arith, Memory, IsBytes, length,
}
use seeking_os.Str.{fill}
use seeking_os.Str.Cstr.{IsCstr}
use seeking_os.Inode.{read_sectors, sector_size}
use seeking_os.FileRead.Bytes.{fill_lem}
use seeking_os.Directory.{entry_bytes}

pub IsCstr-moved :
    (xs : List ℕ) (m m' : Memory) (p q : ℕ)
    → IsCstr m p xs
    → ((i : ℕ) → i ≤ length xs → m' (q + i) ≡ m (p + i))
    → IsCstr m' q xs
IsCstr-moved [] m m' p q s same =
    let p≡ : p + 0 ≡ p = omega arith in
    let q≡ : q + 0 ≡ q = omega arith in ground (arith, same 0 (omega arith), p≡, q≡, s)
IsCstr-moved (x ∷ xs) m m' p q (here, ne, s) same =
    let p≡ : p + 0 ≡ p = omega arith in
    let q≡ : q + 0 ≡ q = omega arith in
    (
      ground (arith, same 0 (omega arith), p≡, q≡, here),
      ne,
      IsCstr-moved xs m m' (p + 1) (q + 1) s (λ i le.
          let a : p + 1 + i ≡ p + (i + 1) = omega arith in
          let b : q + 1 + i ≡ q + (i + 1) = omega arith in rw (a, b) (same (i + 1) (omega arith))),
    )

-- The used blocks of `all_blocks` hold strings as names, each within its sector.
pub record Named (disk : Memory) (all_blocks : ℕ → ℕ) (count n : ℕ) (names : ℕ → ℕ → List ℕ)
    : Type 0 where
  pub stored :
      (k e : ℕ)
      → k < 140
      → all_blocks k ≢ 0
      → e < count
      → IsCstr disk (all_blocks k * sector_size + e * entry_bytes) (names k e)
  pub within : (k e : ℕ) → e < count → e * entry_bytes + length (names k e) < sector_size
  pub short : (k e : ℕ) → e < count → length (names k e) < n

-- What `search_blocks` may change
abbrev pub SameBut : ℕ → Memory → Memory → Type 0
SameBut buf m m' = (a : ℕ) → (a < buf) ⊎ (buf + sector_size ≤ a) → m' a ≡ m a

-- No block from `from` to before `end` has an entry with the name.
abbrev pub Nowhere : (ℕ → ℕ) → ℕ → (ℕ → ℕ → List ℕ) → List ℕ → ℕ → ℕ → Type 0
Nowhere all_blocks count names ys from end =
    (j i : ℕ) → from ≤ j → j < end → all_blocks j ≢ 0 → i < count → names j i ≢ ys

pub read_in :
    (disk : Memory) (lba : ℕ) (m : Memory) (buf i : ℕ)
    → i < sector_size
    → read_sectors disk lba m buf 1 (buf + i) ≡ disk (lba * sector_size + i)
unfolding read_sectors
read_in disk lba m buf i lt = let at : buf + i - buf ≡ i = omega arith in ground (arith, at)

pub read_out :
    (disk : Memory) (lba : ℕ) (m : Memory) (buf : ℕ) → SameBut buf m (read_sectors disk lba m buf 1)
unfolding read_sectors
read_out disk lba m buf a out = ground arith

pub read-IsBytes :
    (disk : Memory) (lba : ℕ) (m : Memory) (buf : ℕ)
    → IsBytes disk
    → IsBytes m
    → IsBytes (read_sectors disk lba m buf 1)
unfolding read_sectors
read-IsBytes disk lba m buf d b a = ground (arith, d (lba * sector_size + (a - buf)), b a)

pub clear-IsBytes : (m : Memory) (buf : ℕ) → IsBytes m → IsBytes (fill m buf 0 sector_size)
clear-IsBytes m buf b a = rw (fill_lem sector_size m buf 0 a) (ground (arith, b a))

pub clear_out : (m : Memory) (buf : ℕ) → SameBut buf m (fill m buf 0 sector_size)
clear_out m buf a out = rw (fill_lem sector_size m buf 0 a) (ground arith)
