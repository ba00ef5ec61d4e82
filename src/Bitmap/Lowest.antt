-- ===== src/Bitmap/Lowest.antt =====
-- `bitmap_scan` for one bit, as its clients call it.
use seeking_os.Prelude.{
  ℕ, ◌*◌, ◌<◌, ◌≡◌, refl, inl, inr, true, false, Option, none, some, arith, ok, Bool-cases,
}
use seeking_os.Bitmap.{Bitmap, bitmap_scan_test, bitmap_scan}
use seeking_os.Bitmap.Scan.{IsValid, IsFirstRun, bitmap_scan-IsFirstRun}

-- The lowest free bit.
pub record IsLowest (b : Bitmap) (i : ℕ) : Type 0 where
  pub inside : i < b.btmp_bytes_len * 8
  pub is_free : bitmap_scan_test b i ≡ false
  pub below : (j : ℕ) → j < i → bitmap_scan_test b j ≡ true

single_run :
    (b : Bitmap) (f : ℕ) (r : Option ℕ)
    → f < b.btmp_bytes_len * 8
    → bitmap_scan_test b f ≡ false
    → IsFirstRun b 1 r
    → (i : ℕ) × (r ≡ some i) × IsLowest b i
single_run b f none lt free none_there =
    absurd (none_there f (omega arith) (λ j lo hi. let e : j ≡ f = omega arith in rw e free))
single_run b f (some i) lt free (fits, run, first) = (
  i,
  refl,
  record {
    inside = omega arith;
    is_free = run i (omega arith) (omega arith);
    below = λ j lj. elim (Bool-cases (bitmap_scan_test b j)) [
      | inl used ↦ used
      | inr unused ↦ absurd (first j lj (λ t lo hi. let e : t ≡ j = omega arith in rw e unused))
    ];
  },
)

-- With a free bit in a valid bitmap, a search for one bit finds the lowest free bit.
pub bitmap_scan-IsLowest :
    (b : Bitmap) (f : ℕ)
    → IsValid b
    → f < b.btmp_bytes_len * 8
    → bitmap_scan_test b f ≡ false
    → (i : ℕ) × (bitmap_scan b 1 ≡ ok (some i)) × IsLowest b i
bitmap_scan-IsLowest b f v lt free =
    let (r, ran, first) = bitmap_scan-IsFirstRun b 1 f v (omega arith) (omega arith) lt free in
    let (i, is, lowest) = single_run b f r lt free first in (i, rw (← is) ran, lowest)
