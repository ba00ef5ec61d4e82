-- ===== src/Bitmap/Byte.antt =====
-- The bits of one byte, as lib/kernel/bitmap.c reads and writes them.
use seeking_os.Prelude.{
  ℕ, ◌-◌, ◌*◌, ◌^◌, ◌<◌, ◌≡◌, refl, Bool, true, false, not, ◌&&◌, ◌||◌, bit_and, bit_or, arith,
  ◌==◌, if◌then◌else◌, u8, all_below, all_below_sound, all_below_complete,
}

-- `BITMAP_MASK`
abbrev pub bitmap_mask : ℕ
bitmap_mask = 1

-- `byte & (uint8_t)(BITMAP_MASK << k)`, as a truth value
unfoldable pub bit_of : ℕ → ℕ → Bool
bit_of byte k = not (bit_and byte (u8 (bitmap_mask * 2 ^ k)) == 0)

-- `byte |= (BITMAP_MASK << k)` and `byte &= ~(BITMAP_MASK << k)`, kept in the byte
unfoldable pub with_bit : ℕ → ℕ → ℕ → ℕ
with_bit byte k value =
    if value == 0
    then u8 (bit_and byte (2 ^ 32 - 1 - bitmap_mask * 2 ^ k))
    else u8 (bit_or byte (bitmap_mask * 2 ^ k))

abbrev same : Bool → Bool → Bool
same true c = c
same false c = not c

eq-of_same : (b c : Bool) → same b c ≡ true → b ≡ c
eq-of_same true true h = refl
eq-of_same true false h = cc
eq-of_same false true h = cc
eq-of_same false false h = refl

abbrev set_entry : ℕ → ℕ → ℕ → ℕ → Bool
set_entry b k v j = same (bit_of (with_bit b k v) j) (if k == j then v == 1 else bit_of b j)

set_table :
    all_below 256 (λ b. all_below 8 (λ k. all_below 8 (λ j. all_below 2 (λ v. set_entry b k v j))))
    ≡ true
unfolding all_below bit_of with_bit
set_table = refl

-- The changed bit has the value, and the other bits stay.
pub bit_of-with_bit :
    (b k v j : ℕ)
    → b < 256
    → k < 8
    → j < 8
    → v < 2
    → bit_of (with_bit b k v) j ≡ (if k == j then v == 1 else bit_of b j)
bit_of-with_bit b k v j hb hk hj hv =
    let t1 = all_below_sound 256 _ b set_table hb in
    let t2 = all_below_sound 8 _ k t1 hk in
    let t3 = all_below_sound 8 _ j t2 hj in
    eq-of_same _ _ (all_below_sound 2 (λ v. set_entry b k v j) v t3 hv)

pub with_bit-lt : (b k v : ℕ) → with_bit b k v < 256
unfolding with_bit
with_bit-lt b k v = ground arith

eight_table : all_below 256 (λ b. not (bit_of b 8)) ≡ true
unfolding all_below bit_of
eight_table = refl

-- The mask is a `uint8_t`, so there is no ninth bit.
pub bit_of_eight : (b : ℕ) → b < 256 → bit_of b 8 ≡ false
bit_of_eight b h = ground (arith, all_below_sound 256 (λ b. not (bit_of b 8)) b eight_table h)

full_table :
    all_below 256 (λ b. not (all_below 8 (bit_of b)) || b == 255)
      && all_below 8 (λ k. bit_of 255 k && not (bit_of 0 k))
    ≡ true
unfolding all_below bit_of
full_table = refl

-- Only 0xff has all its bits set.
pub eq_of_all_bits : (b : ℕ) → b < 256 → ((k : ℕ) → k < 8 → bit_of b k ≡ true) → b ≡ 255
eq_of_all_bits b hb h =
    let entry =
      all_below_sound 256 (λ b. not (all_below 8 (bit_of b)) || b == 255) b
        (ground (arith, full_table)) hb in
    ground (arith, entry, all_below_complete 8 (bit_of b) h)

pub bit_of_full : (k : ℕ) → k < 8 → bit_of 255 k ≡ true
bit_of_full k h = ground (
  arith,
  all_below_sound 8 (λ k. bit_of 255 k && not (bit_of 0 k)) k (ground (arith, full_table)) h,
)

pub bit_of_zero : (k : ℕ) → k < 8 → bit_of 0 k ≡ false
bit_of_zero k h = ground (
  arith,
  all_below_sound 8 (λ k. bit_of 255 k && not (bit_of 0 k)) k (ground (arith, full_table)) h,
)
