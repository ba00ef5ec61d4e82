-- ===== src/Heap/Sizes.antt =====
-- The sizes of the blocks, and the descriptor that a size gets.
use seeking_os.Prelude.{
  ℕ, zero, suc, ◌+◌, ◌*◌, ◌/◌, ◌^◌, ◌≤◌, ◌<◌, ◌≡◌, refl, arith, [], Bool-cases, inl, inr, leb,
}
use seeking_os.Heap.{MemBlockDesc, block_descs_init, init_descs, find_desc, desc_cnt, pages_for}

-- The descriptors have the sizes that `block_descs_init` gives them.
abbrev pub HasSizes : (ℕ → MemBlockDesc) → Type 0
HasSizes descs =
    (i : ℕ)
    → i < 7
    → ((descs i).block_size ≡ 16 * 2 ^ i) × ((descs i).blocks_per_arena ≡ 4084 / (16 * 2 ^ i))

-- What holds for each of the seven indices
abbrev pub below_seven {κ} :
    (P : ℕ → Type κ) → P 0 × P 1 × P 2 × P 3 × P 4 × P 5 × P 6 → (i : ℕ) → i < 7 → P i
below_seven P each zero lt = each.0
below_seven P each (suc zero) lt = each.1
below_seven P each (suc (suc zero)) lt = each.2
below_seven P each (suc (suc (suc zero))) lt = each.3
below_seven P each (suc (suc (suc (suc zero)))) lt = each.4
below_seven P each (suc (suc (suc (suc (suc zero))))) lt = each.5
below_seven P each (suc (suc (suc (suc (suc (suc zero)))))) lt = each.6
below_seven P each (suc (suc (suc (suc (suc (suc (suc i))))))) lt = absurd (omega arith)

pub block_descs_init-HasSizes :
    (descs : ℕ → MemBlockDesc)
    → HasSizes (block_descs_init descs)
      × ((i : ℕ) → i < 7 → (block_descs_init descs i).free_list ≡ [])
unfolding block_descs_init init_descs
block_descs_init-HasSizes descs = (
  below_seven _ (
    (refl, refl),
    (refl, refl),
    (refl, refl),
    (refl, refl),
    (refl, refl),
    (refl, refl),
    (refl, refl),
  ),
  below_seven _ (refl, refl, refl, refl, refl, refl, refl),
)

find_desc_from :
    (n : ℕ) (descs : ℕ → MemBlockDesc) (size idx : ℕ)
    → (d : ℕ) × (find_desc n descs size idx ≡ d)
      × (idx ≤ d)
      × (d ≤ idx + n)
      × ((i : ℕ) → idx ≤ i → i < d → (descs i).block_size < size)
      × (d < idx + n → size ≤ (descs d).block_size)
unfolding find_desc
find_desc_from zero descs size idx = (
  idx,
  refl,
  omega arith,
  omega arith,
  λ i lo hi. absurd (omega arith),
  λ lt. absurd (omega arith),
)
find_desc_from (suc n) descs size idx = elim (Bool-cases (leb size (descs idx).block_size)) [
  | inl fits ↦ (
    idx,
    rw fits refl,
    omega arith,
    omega arith,
    λ i lo hi. absurd (omega arith),
    λ lt. ground (arith, fits),
  )
  | inr small ↦
      let (d, ran, lo, hi, before, at) = find_desc_from n descs size (idx + 1) in
      (
        d,
        rw small ran,
        omega arith,
        omega arith,
        λ i from to. elim (Bool-cases (leb i idx)) [
          | inl here ↦ let e : i ≡ idx = ground arith in rw e (ground arith)
          | inr next ↦ before i (ground arith) to
        ],
        λ lt. at (omega arith),
      )
]

-- For 1 to 1024 bytes the smallest descriptor whose blocks are large enough is found.
pub find_desc_lem :
    (descs : ℕ → MemBlockDesc) (size : ℕ)
    → HasSizes descs
    → size ≤ 1024
    → (find_desc desc_cnt descs size 0 < 7)
      × (size ≤ (descs (find_desc desc_cnt descs size 0)).block_size)
      × ((i : ℕ) → i < find_desc desc_cnt descs size 0 → (descs i).block_size < size)
find_desc_lem descs size sizes le =
    let (d, ran, lo, hi, before, at) = find_desc_from 7 descs size 0 in
    let last = (sizes 6 (omega arith)).0 in
    elim (Bool-cases (leb 7 d)) [
      | inl out ↦ absurd (omega (arith, before 6 (omega arith) (ground arith), last))
      | inr inside ↦
          let lt : d < 7 = ground arith in
          rw ran (lt, at (omega arith), λ i below. before i (omega arith) below)
    ]

-- The pages for a large block hold it and the header, with less than a page to spare.
pub pages_for_lem :
    (size : ℕ)
    → size < 2 ^ 31
    → (size + 12 ≤ pages_for size * 4096) × (pages_for size * 4096 < size + 12 + 4096)
unfolding pages_for
pages_for_lem size small = ground arith

-- The blocks of a descriptor fit in a page behind the header, and there are 3 to 255.
pub HasSizes-fits :
    (descs : ℕ → MemBlockDesc) (d : ℕ)
    → HasSizes descs
    → d < 7
    → (0 < (descs d).block_size)
      × (12 + (descs d).blocks_per_arena * (descs d).block_size ≤ 4096)
      × (3 ≤ (descs d).blocks_per_arena)
      × ((descs d).blocks_per_arena ≤ 255)
HasSizes-fits descs d sizes lt =
    let (size, blocks) = sizes d lt in
    rw (size, blocks)
      (below_seven
        (λ i.
          (0 < 16 * 2 ^ i)
          × (12 + 4084 / (16 * 2 ^ i) * (16 * 2 ^ i) ≤ 4096)
          × (3 ≤ 4084 / (16 * 2 ^ i))
          × (4084 / (16 * 2 ^ i) ≤ 255))
        (
          (omega arith, omega arith, omega arith, omega arith),
          (omega arith, omega arith, omega arith, omega arith),
          (omega arith, omega arith, omega arith, omega arith),
          (omega arith, omega arith, omega arith, omega arith),
          (omega arith, omega arith, omega arith, omega arith),
          (omega arith, omega arith, omega arith, omega arith),
          (omega arith, omega arith, omega arith, omega arith),
        )
        d lt)
