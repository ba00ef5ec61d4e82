-- ===== src/Bitmap.antt =====
-- lib/kernel/bitmap.c and bitmap.h: a bitmap is its length in bytes and the memory that `bits`
-- points to, addressed from there. Memory goes on behind the bitmap, as it does in the kernel.
pub mod Byte
pub mod Scan
pub mod Set
pub mod Lowest
mod Tests
use seeking_os.Prelude.{
  ℕ, zero, suc, ◌+◌, ◌*◌, ◌/◌, ◌%◌, Bool, ◌&&◌, ◌||◌, Option, none, some, Memory, store, Outcome,
  ok, out_of_fuel, assert, ◌>>=◌, ◌>>◌, ◌==◌, ltb, leb, if◌then◌else◌, add32, sub32,
}
use seeking_os.Str.{fill}
use Byte.{bit_of, with_bit}

pub record Bitmap : Type 0 where
  pub btmp_bytes_len : ℕ
  pub bits : Memory

unfoldable pub bitmap_init : Bitmap → Bitmap
bitmap_init btmp = record btmp { bits = fill btmp.bits 0 0 btmp.btmp_bytes_len }

unfoldable pub bitmap_scan_test : Bitmap → ℕ → Bool
bitmap_scan_test btmp bit_idx = bit_of (btmp.bits (bit_idx / 8)) (bit_idx % 8)

-- `while ((0xff == bits[idx_byte]) && (idx_byte < btmp_bytes_len)) idx_byte++;`
unfoldable pub find_byte : ℕ → Bitmap → ℕ → Outcome ℕ
find_byte zero btmp idx_byte = out_of_fuel
find_byte (suc n) btmp idx_byte =
    let rest = find_byte n btmp (idx_byte + 1) in
    if 0xff == btmp.bits idx_byte && ltb idx_byte btmp.btmp_bytes_len then rest else ok idx_byte

-- `while (bits[idx_byte] & (uint8_t)(BITMAP_MASK << idx_bit)) idx_bit++;`
unfoldable pub find_bit : ℕ → ℕ → ℕ → Outcome ℕ
find_bit zero byte idx_bit = out_of_fuel
find_bit (suc n) byte idx_bit =
    let rest = find_bit n byte (idx_bit + 1) in if bit_of byte idx_bit then rest else ok idx_bit

-- The last loop of `bitmap_scan`; its first argument is `bit_left`.
unfoldable pub scan_run : ℕ → Bitmap → ℕ → ℕ → ℕ → Option ℕ
scan_run zero btmp cnt next_bit count = none
scan_run (suc bit_left) btmp cnt next_bit count =
    let count' = if bitmap_scan_test btmp next_bit then 0 else add32 count 1 in
    let rest = scan_run bit_left btmp cnt (add32 next_bit 1) count' in
    if count' == cnt then some (add32 (sub32 next_bit cnt) 1) else rest

-- The search behind the first free bit, `bit_idx_start`.
unfoldable pub scan_from : Bitmap → ℕ → ℕ → Option ℕ
scan_from btmp cnt start =
    if cnt == 1
    then some start
    else scan_run (sub32 (sub32 (btmp.btmp_bytes_len * 8) start) 1) btmp cnt (add32 start 1) 1

-- `none` is the return value -1. The loops get a round for each byte or bit and one to stop.
unfoldable pub bitmap_scan : Bitmap → ℕ → Outcome (Option ℕ)
bitmap_scan btmp cnt = do
  assert (leb 1 cnt)
  idx_byte ← find_byte (suc btmp.btmp_bytes_len) btmp 0
  assert (ltb idx_byte btmp.btmp_bytes_len)
  if idx_byte == btmp.btmp_bytes_len then ok none else do
    idx_bit ← find_bit 9 (btmp.bits idx_byte) 0
    ok (scan_from btmp cnt (idx_byte * 8 + idx_bit))

unfoldable pub bitmap_set : Bitmap → ℕ → ℕ → Outcome Bitmap
bitmap_set btmp bit_idx value = do
  assert (value == 0 || value == 1)
  let old = btmp.bits (bit_idx / 8)
  ok (record btmp { bits = store btmp.bits (bit_idx / 8) (with_bit old (bit_idx % 8) value) })
