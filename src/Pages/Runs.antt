-- ===== src/Pages/Runs.antt =====
-- Runs of virtual pages that `vaddr_get` takes and `vaddr_remove` gives back.
use seeking_os.Prelude.{
  ℕ, zero, suc, ◌+◌, ◌*◌, ◌%◌, ◌^◌, ◌≤◌, ◌<◌, ◌≡◌, refl, ◌∙◌, false, ◌&&◌, Option, none, some,
  arith, ok, ◌==◌, leb, ltb, if◌then◌else◌, add32,
}
use seeking_os.Bitmap.{Bitmap, bitmap_scan_test, bitmap_scan}
use seeking_os.Bitmap.Scan.{IsValid, IsFirstRun, bitmap_scan-IsFirstRun}
use seeking_os.Bitmap.Set.{bitmap_set-Updated}
use seeking_os.Pages.{VirtualAddrPool, set_run, vaddr_of, vaddr_take}

-- `b'` is `b` with the `n` bits from `i` on set to `v`.
pub record RunSet (b : Bitmap) (i n v : ℕ) (b' : Bitmap) : Type 0 where
  pub valid : IsValid b'
  pub len : b'.btmp_bytes_len ≡ b.btmp_bytes_len
  pub bit :
      (j : ℕ)
      → bitmap_scan_test b' j ≡ (if leb i j && ltb j (i + n) then v == 1 else bitmap_scan_test b j)

pub set_run-RunSet :
    (n : ℕ) (b : Bitmap) (i v : ℕ)
    → IsValid b
    → i + n < 2 ^ 32
    → v < 2
    → (b' : Bitmap) × (set_run n b i v ≡ ok b') × RunSet b i n v b'
unfolding set_run
set_run-RunSet zero b i v valid fits bit =
    (b, refl, record { valid = valid; len = refl; bit = λ j. ground arith })
set_run-RunSet (suc n) b i v valid fits hv =
    let (b₁, set, up) = bitmap_set-Updated b i v valid hv in
    let (b₂, ran, rest) = set_run-RunSet n b₁ (add32 i 1) v up.valid (omega arith) hv in
    (
      b₂,
      rw set ran,
      record {
        valid = rest.valid;
        len = rest.len ∙ up.len;
        bit = λ j. rest.bit j ∙ ground (arith, up.bit j);
      },
    )

-- What `vaddr_take` leaves: NULL where no run of the pages is free in the pool, and else the address of
-- the first such run, which it marks.
abbrev pub Taken : VirtualAddrPool → ℕ → Option (ℕ × VirtualAddrPool) → Type 0
Taken pool n none = IsFirstRun pool.vaddr_bitmap n none
Taken pool n (some (addr, pool')) =
    (i : ℕ) × (addr ≡ (pool.vaddr_start + i * 4096) % 2 ^ 32)
    × (pool'.vaddr_start ≡ pool.vaddr_start)
    × IsFirstRun pool.vaddr_bitmap n (some i)
    × RunSet pool.vaddr_bitmap i n 1 pool'.vaddr_bitmap

Taken-of_scan :
    (pool : VirtualAddrPool) (n : ℕ) (r : Option ℕ)
    → IsValid pool.vaddr_bitmap
    → bitmap_scan pool.vaddr_bitmap n ≡ ok r
    → IsFirstRun pool.vaddr_bitmap n r
    → (t : Option (ℕ × VirtualAddrPool)) × (vaddr_take pool n ≡ ok t) × Taken pool n t
unfolding vaddr_take vaddr_of
Taken-of_scan pool n none v ran first = (none, rw ran, first)
Taken-of_scan pool n (some i) v ran first =
    let fits = first.0 in
    let small = v.small in
    let (b, set, runs) = set_run-RunSet n pool.vaddr_bitmap i 1 v (omega arith) (omega arith) in
    (
      some (vaddr_of pool i, record pool { vaddr_bitmap = b }),
      rw (ran, set),
      (i, omega arith, refl, first, runs),
    )

-- In a pool with a free page, a request for 1 or more pages gets the address of the first free run
-- of as many pages, the start of the pool and 4096 for each page before the run, and the run is
-- then marked and nothing else, or NULL exactly where there is no such run.
pub vaddr_take-Taken :
    (pool : VirtualAddrPool) (n f : ℕ)
    → IsValid pool.vaddr_bitmap
    → 1 ≤ n
    → n < 2 ^ 32
    → f < pool.vaddr_bitmap.btmp_bytes_len * 8
    → bitmap_scan_test pool.vaddr_bitmap f ≡ false
    → (t : Option (ℕ × VirtualAddrPool)) × (vaddr_take pool n ≡ ok t) × Taken pool n t
vaddr_take-Taken pool n f v lo hi lt free =
    let (r, ran, first) = bitmap_scan-IsFirstRun pool.vaddr_bitmap n f v lo hi lt free in
    Taken-of_scan pool n r v ran first
