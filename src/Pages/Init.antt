-- ===== src/Pages/Init.antt =====
-- `mem_pool_init` of kernel/memory.c: how the memory is shared out between the two pools, and where
-- their bitmaps stand.
use seeking_os.Prelude.{
  ℕ, ◌+◌, ◌-◌, ◌*◌, ◌/◌, ◌%◌, ◌^◌, ◌≤◌, ◌<◌, ◌≡◌, false, Memory, add32, sub32, mul32,
}
use seeking_os.Bitmap.{Bitmap, bitmap_init, bitmap_scan_test}
use seeking_os.Pages.{Pool, VirtualAddrPool, pg_size}

abbrev pub mem_bitmap_base : ℕ
mem_bitmap_base = 0xc009a000

abbrev pub k_heap_start : ℕ
k_heap_start = 0xc0100000

-- `uint16_t`
abbrev u16 : ℕ → ℕ
u16 a = a % 2 ^ 16

-- The local variables: the lengths are in bytes, `used_mem` is in front of the pools.
pub record Shares : Type 0 where
  pub used_mem : ℕ
  pub kernel_free_pages : ℕ
  pub user_free_pages : ℕ
  pub kbm_lenth : ℕ
  pub ubm_lenth : ℕ

unfoldable pub shares_of : ℕ → Shares
shares_of all_mem =
    let used_mem = add32 (mul32 pg_size 256) 0x100000 in
    let all_free_pages = u16 (sub32 all_mem used_mem / pg_size) in
    let kernel_free_pages = all_free_pages / 2 in
    let user_free_pages = u16 (all_free_pages + 2 ^ 16 - kernel_free_pages) in
    record {
      used_mem = used_mem;
      kernel_free_pages = kernel_free_pages;
      user_free_pages = user_free_pages;
      kbm_lenth = kernel_free_pages / 8;
      ubm_lenth = user_free_pages / 8;
    }

-- A bitmap of `len` bytes at an address of the memory, cleared
abbrev cleared : Memory → ℕ → ℕ → Bitmap
cleared m bits len = bitmap_init (record { btmp_bytes_len = len; bits = λ a. m (bits + a) })

-- Where the bits of the kernel's frames, of the user's frames and of the kernel's addresses stand
unfoldable pub bitmaps_at : Shares → ℕ × ℕ × ℕ
bitmaps_at s =
    (mem_bitmap_base, mem_bitmap_base + s.kbm_lenth, mem_bitmap_base + s.kbm_lenth + s.ubm_lenth)

-- The two pools and the pool of the kernel's addresses
unfoldable pub mem_pool_init : Memory → ℕ → Pool × Pool × VirtualAddrPool
mem_pool_init m all_mem =
    let s = shares_of all_mem in
    let at = bitmaps_at s in
    (
      record {
        pool_bitmap = cleared m (at.0) s.kbm_lenth;
        phy_addr_start = s.used_mem;
        pool_size = mul32 s.kernel_free_pages pg_size;
      },
      record {
        pool_bitmap = cleared m (at.1) s.ubm_lenth;
        phy_addr_start = add32 s.used_mem (mul32 s.kernel_free_pages pg_size);
        pool_size = mul32 s.user_free_pages pg_size;
      },
      record { vaddr_bitmap = cleared m (at.2) s.kbm_lenth; vaddr_start = k_heap_start },
    )

-- The end of the frames of a pool
abbrev pub end_of : Pool → ℕ
end_of pool = pool.phy_addr_start + pool.pool_bitmap.btmp_bytes_len * 8 * 4096

-- The kernel's frames start behind the first 2 MiB, the user's fewer than 8 frames behind their end, and
-- those end within the memory; of all frames behind the first 2 MiB fewer than 16 are in no pool. The
-- bits of each pool stand in front of those of the next, from 0xc009a000 to below 0xc009e000, the
-- kernel's addresses start at 0xc0100000, as many as its frames, and every bit of the three is free.
pub record IsShared (all_mem : ℕ) (at : ℕ × ℕ × ℕ) (kernel user : Pool)
    (addresses : VirtualAddrPool) : Type 0 where
  pub kernel_start : kernel.phy_addr_start ≡ 0x200000
  pub user_next : user.phy_addr_start < end_of kernel + 8 * 4096
  pub addresses_start : addresses.vaddr_start ≡ 0xc0100000
  pub addresses_many : addresses.vaddr_bitmap.btmp_bytes_len ≡ kernel.pool_bitmap.btmp_bytes_len
  pub kernel_first : end_of kernel ≤ user.phy_addr_start
  pub within : end_of user ≤ all_mem
  pub few_lost :
      (all_mem - 0x200000) / 4096
      < (kernel.pool_bitmap.btmp_bytes_len + user.pool_bitmap.btmp_bytes_len) * 8 + 16
  pub kernel_bits : at.0 ≡ 0xc009a000
  pub user_bits : at.0 + kernel.pool_bitmap.btmp_bytes_len ≤ at.1
  pub address_bits : at.1 + user.pool_bitmap.btmp_bytes_len ≤ at.2
  pub bitmaps_fit : at.2 + addresses.vaddr_bitmap.btmp_bytes_len ≤ 0xc009e000
  pub kernel_free :
      (j : ℕ)
      → j < kernel.pool_bitmap.btmp_bytes_len * 8
      → bitmap_scan_test kernel.pool_bitmap j ≡ false
  pub user_free :
      (j : ℕ)
      → j < user.pool_bitmap.btmp_bytes_len * 8
      → bitmap_scan_test user.pool_bitmap j ≡ false
  pub addresses_free :
      (j : ℕ)
      → j < addresses.vaddr_bitmap.btmp_bytes_len * 8
      → bitmap_scan_test addresses.vaddr_bitmap j ≡ false
