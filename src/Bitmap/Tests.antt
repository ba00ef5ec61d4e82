-- ===== src/Bitmap/Tests.antt =====
-- Bitmaps of two bytes for lib/kernel/bitmap.c.
use seeking_os.Prelude.{
  ℕ, ◌%◌, ◌<◌, ◌≡◌, refl, true, Option, some, arith, ok, panic, ◌==◌, if◌then◌else◌,
}
use seeking_os.Bitmap.{
  Bitmap, bitmap_scan_test, bitmap_scan, find_byte, find_bit, scan_from, scan_run,
}
use seeking_os.Bitmap.Byte.{bit_of, bit_of_full}
use seeking_os.Bitmap.Scan.{IsValid, IsFirstRun, bitmap_scan-IsFirstRun, bitmap_scan_full}

-- Bits 0, 1, 2 and 4 are set.
abbrev sparse : Bitmap
sparse = record { btmp_bytes_len = 2; bits = λ a. if a == 0 then 0x17 else 0 }

sparse-IsValid : IsValid sparse
sparse-IsValid = record { bytes = λ a. ground arith; small = omega arith }

abbrev full : Bitmap
full = record { btmp_bytes_len = 1; bits = λ a. 0xff }

full-IsValid : IsValid full
full-IsValid = record { bytes = λ a. omega arith; small = omega arith }

full_bit : (j : ℕ) → j < 8 → bitmap_scan_test full j ≡ true
unfolding bitmap_scan_test
full_bit j lt = bit_of_full (j % 8) (omega arith)

-- Bit 3 is free alone; the first two free bits are 5 and 6.
scan_one : bitmap_scan sparse 1 ≡ ok (some 3)
unfolding bitmap_scan find_byte find_bit bit_of scan_from
scan_one = refl

scan_two : bitmap_scan sparse 2 ≡ ok (some 5)
unfolding bitmap_scan find_byte find_bit bit_of scan_from scan_run bitmap_scan_test
scan_two = refl

bitmap_scan-IsFirstRun_example :
    (r : Option ℕ) × (bitmap_scan sparse 2 ≡ ok r) × IsFirstRun sparse 2 r
unfolding bitmap_scan_test bit_of
bitmap_scan-IsFirstRun_example =
    bitmap_scan-IsFirstRun sparse 2 3 sparse-IsValid (omega arith) (omega arith) (omega arith) refl

bitmap_scan_full_example : bitmap_scan full 1 ≡ panic
bitmap_scan_full_example = bitmap_scan_full full 1 full_bit full-IsValid
