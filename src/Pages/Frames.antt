-- ===== src/Pages/Frames.antt =====
-- Frames that `palloc` hands out and `pfree` takes back.
use seeking_os.Prelude.{
  ℕ, ◌+◌, ◌*◌, ◌/◌, ◌^◌, ◌<◌, ◌≡◌, ◌∙◌, false, some, arith, ok, add32, sub32, mul32,
}
use seeking_os.Bitmap.{Bitmap, bitmap_scan_test}
use seeking_os.Bitmap.Scan.{IsValid}
use seeking_os.Bitmap.Set.{Updated, bitmap_set-Updated}
use seeking_os.Bitmap.Lowest.{IsLowest, bitmap_scan-IsLowest}
use seeking_os.Pages.{Pool, palloc, pool_free}

-- A pool with a free frame: `palloc` hands out the lowest free frame and marks that frame alone.
pub palloc_lem :
    (pool : Pool) (f : ℕ)
    → IsValid pool.pool_bitmap
    → f < pool.pool_bitmap.btmp_bytes_len * 8
    → bitmap_scan_test pool.pool_bitmap f ≡ false
    → (i : ℕ) × (b : Bitmap) × (palloc pool
        ≡ ok (some (add32 pool.phy_addr_start (mul32 i 4096), record pool { pool_bitmap = b })))
      × IsLowest pool.pool_bitmap i
      × Updated pool.pool_bitmap i 1 b
unfolding palloc
palloc_lem pool f v lt free =
    let (i, ran, lowest) = bitmap_scan-IsLowest pool.pool_bitmap f v lt free in
    let (b, set, updated) = bitmap_set-Updated pool.pool_bitmap i 1 v (omega arith) in
    (i, b, rw (ran, set), lowest, updated)

-- In a pool with a free frame that ends within 4 GiB, the frame that `palloc` hands out goes back
-- by the step of `pfree` at its address, and every bit is as before.
pub palloc_then_free :
    (pool : Pool) (f : ℕ)
    → IsValid pool.pool_bitmap
    → pool.phy_addr_start + pool.pool_bitmap.btmp_bytes_len * 8 * 4096 < 2 ^ 32
    → f < pool.pool_bitmap.btmp_bytes_len * 8
    → bitmap_scan_test pool.pool_bitmap f ≡ false
    → (addr : ℕ) × (taken : Pool) × (back : Pool) × (palloc pool ≡ ok (some (addr, taken)))
      × (pool_free taken addr ≡ ok back)
      × ((j : ℕ) → bitmap_scan_test back.pool_bitmap j ≡ bitmap_scan_test pool.pool_bitmap j)
unfolding pool_free
palloc_then_free pool f v fits lt free =
    let (i, b, ran, lowest, up) = palloc_lem pool f v lt free in
    let inside = lowest.inside in
    let (b', set, down) = bitmap_set-Updated b i 0 up.valid (omega arith) in
    let addr = add32 pool.phy_addr_start (mul32 i 4096) in
    let index : sub32 addr pool.phy_addr_start / 4096 ≡ i = omega arith in
    (
      addr,
      record pool { pool_bitmap = b },
      record pool { pool_bitmap = b' },
      ran,
      rw (index, set),
      λ j. down.bit j ∙ ground (arith, up.bit j, lowest.is_free),
    )
