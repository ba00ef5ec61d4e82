-- ===== src/Release/Blocks.antt =====
-- What the loops of `inode_realse` do to the bitmap of blocks.
use seeking_os.Prelude.{
  ℕ, zero, suc, ◌+◌, ◌-◌, ◌^◌, ◌≤◌, ◌<◌, ◌≡◌, refl, ◌≢◌, ◌∙◌, arith, true, false, ok, ◌==◌, ==-refl,
  Bool-cases, inl, inr, ltb, sub32,
}
use seeking_os.Bitmap.{bitmap_scan_test}
use seeking_os.Bitmap.Scan.{IsValid}
use seeking_os.Bitmap.Set.{bitmap_set-Updated}
use seeking_os.Files.{bitmap_sync}
use seeking_os.Release.{Sectors, Stored, free_block, free_blocks}

-- Nothing but the bitmap of blocks, its valid bytes and the disk has changed, and no bit is set anew.
pub record Frees (s s' : Stored) : Type 0 where
  pub valid : IsValid s'.block_bitmap
  pub inodes : s'.inode_bitmap ≡ s.inode_bitmap
  pub clear :
      (j : ℕ)
      → bitmap_scan_test s.block_bitmap j ≡ false
      → bitmap_scan_test s'.block_bitmap j ≡ false

pub Frees-refl : (s : Stored) → IsValid s.block_bitmap → Frees s s
Frees-refl s valid = record { valid = valid; inodes = refl; clear = λ j e. e }

pub Frees-trans : (s t u : Stored) → Frees s t → Frees t u → Frees s u
Frees-trans s t u first second = record {
  valid = second.valid;
  inodes = second.inodes ∙ first.inodes;
  clear = λ j e. second.clear j (first.clear j e);
}

-- A block behind the first one of the data, with a number of 32 bits
abbrev pub IsBlock : Sectors → ℕ → Type 0
IsBlock lay block = (lay.data_start_lba < block) × (block < 2 ^ 32)

pub free_block_lem :
    (lay : Sectors) (s : Stored) (block : ℕ)
    → IsValid s.block_bitmap
    → IsBlock lay block
    → (s' : Stored) × (free_block lay s block ≡ ok s')
      × Frees s s'
      × (bitmap_scan_test s'.block_bitmap (block - lay.data_start_lba) ≡ false)
      × ((j : ℕ)
          → block - lay.data_start_lba ≢ j
          → bitmap_scan_test s'.block_bitmap j ≡ bitmap_scan_test s.block_bitmap j)
unfolding free_block
free_block_lem lay s block valid (behind, word) =
    let i = block - lay.data_start_lba in
    let index : sub32 block lay.data_start_lba ≡ i = ground arith in
    let some_ : ltb 0 i ≡ true = ground arith in
    let (btmp, set, updated) = bitmap_set-Updated s.block_bitmap i 0 valid (omega arith) in
    (
      record s { block_bitmap = btmp; disk = bitmap_sync s.disk lay.block_bitmap_lba btmp i },
      rw (index, some_, set, index) refl,
      record {
        valid = updated.valid;
        inodes = refl;
        clear = λ j e. updated.bit j ∙ ground (arith, e);
      },
      updated.bit i ∙ rw (==-refl) refl,
      λ j other. let off : (i == j) ≡ false = ground (arith, other) in updated.bit j ∙ rw off refl,
    )

-- After the loop the blocks in its part of the array are free, and other bits are as they were.
pub free_blocks_lem :
    (n : ℕ) (lay : Sectors) (s : Stored) (blocks : ℕ → ℕ) (idx : ℕ)
    → IsValid s.block_bitmap
    → ((k : ℕ) → k < idx + n → blocks k ≢ 0 → IsBlock lay (blocks k))
    → (s' : Stored) × (free_blocks n lay s blocks idx ≡ ok s')
      × Frees s s'
      × ((k : ℕ)
          → idx ≤ k
          → k < idx + n
          → blocks k ≢ 0
          → bitmap_scan_test s'.block_bitmap (blocks k - lay.data_start_lba) ≡ false)
      × ((j : ℕ)
          → ((k : ℕ) → idx ≤ k → k < idx + n → blocks k ≢ 0 → blocks k - lay.data_start_lba ≢ j)
          → bitmap_scan_test s'.block_bitmap j ≡ bitmap_scan_test s.block_bitmap j)
unfolding free_blocks
free_blocks_lem zero lay s blocks idx valid own =
    (s, refl, Frees-refl s valid, λ k lo hi some_. absurd (omega arith), λ j out. refl)
free_blocks_lem (suc n) lay s blocks idx valid own = elim (Bool-cases (blocks idx == 0)) [
  | inl empty ↦
      let none_ : blocks idx ≡ 0 = ground arith in
      let (s', ran, frees, gone, kept) =
        free_blocks_lem n lay s blocks (idx + 1) valid (λ k lt some_. own k (omega arith) some_) in
      (
        s',
        rw empty ran,
        frees,
        λ k lo hi some_. elim (Bool-cases (k == idx)) [
          | inl here ↦ let e : k ≡ idx = ground arith in absurd (some_ (rw e none_))
          | inr later ↦ gone k (ground arith) (omega arith) some_
        ],
        λ j out. kept j (λ k lo hi some_. out k (omega arith) (omega arith) some_),
      )
  | inr used ↦
      let there : blocks idx ≢ 0 = λ e. ground arith in
      let (s₁, freed, frees₁, gone₁, kept₁) =
        free_block_lem lay s (blocks idx) valid (own idx (omega arith) there) in
      let (s', ran, frees, gone, kept) =
        free_blocks_lem n lay s₁ blocks (idx + 1) frees₁.valid
          (λ k lt some_. own k (omega arith) some_) in
      (
        s',
        rw (used, freed) ran,
        Frees-trans s s₁ s' frees₁ frees,
        λ k lo hi some_. elim (Bool-cases (k == idx)) [
          | inl here ↦
              let e : k ≡ idx = ground arith in
              rw e (frees.clear (blocks idx - lay.data_start_lba) gone₁)
          | inr later ↦ gone k (ground arith) (omega arith) some_
        ],
        λ j out.
            kept j (λ k lo hi some_. out k (omega arith) (omega arith) some_)
            ∙ kept₁ j (out idx (omega arith) (omega arith) there),
      )
]
