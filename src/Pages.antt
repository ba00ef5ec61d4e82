-- ===== src/Pages.antt =====
-- kernel/memory.c: pools of page frames and of virtual addresses, and the page table entries.
-- A page table entry stands at the address that the recursive mapping gives it; `entries` are the
-- words there. Directory entries with one frame share a table, as those of 0 and of 0xc0000000 do
-- (boot/loader.s), so a word may stand at several of these addresses. The locks of the pools are taken around these calls.
pub mod Mapping
pub mod Frames
pub mod Runs
pub mod Init
mod Tests
use seeking_os.Prelude.{
  ℕ, zero, suc, ◌+◌, ◌-◌, ◌*◌, ◌/◌, ◌%◌, ◌^◌, Bool, true, false, not, ◌&&◌, ◌||◌, Option, none,
  some, Memory, store, Outcome, ok, panic, assert, ◌>>=◌, ◌>>◌, ◌==◌, ltb, leb, if◌then◌else◌,
  add32, sub32, mul32, bit_and, bit_or,
}
use seeking_os.Bitmap.{Bitmap, bitmap_scan, bitmap_set}

abbrev pub pg_size : ℕ
pg_size = 4096

pub record Pool : Type 0 where
  pub pool_bitmap : Bitmap
  pub phy_addr_start : ℕ
  pub pool_size : ℕ

pub record VirtualAddrPool : Type 0 where
  pub vaddr_bitmap : Bitmap
  pub vaddr_start : ℕ

pub data PoolFlags : Type 0 where
  pf_kernel pf_user : PoolFlags

-- The two pools, `kernel_vaddr_pool`, the `userprog_vaddr` and whether there is a `pgdir` of the
-- running task, and the words of the page tables in force.
pub record Machine : Type 0 where
  pub kernel_pool : Pool
  pub user_pool : Pool
  pub kernel_vaddr_pool : VirtualAddrPool
  pub userprog_vaddr : VirtualAddrPool
  pub has_pgdir : Bool
  pub entries : Memory

-- `PDE_IDX` and `PTE_IDX`
abbrev pub pde_idx : ℕ → ℕ
pde_idx addr = bit_and addr 0xffc00000 / 2 ^ 22

abbrev pub pte_idx : ℕ → ℕ
pte_idx addr = bit_and addr 0x003ff000 / 2 ^ 12

unfoldable pub pte_ptr : ℕ → ℕ
pte_ptr vaddr = add32 (add32 0xffc00000 (bit_and vaddr 0xffc00000 / 2 ^ 10)) (pte_idx vaddr * 4)

unfoldable pub pde_ptr : ℕ → ℕ
pde_ptr vaddr = add32 0xfffff000 (pde_idx vaddr * 4)

-- `page_phyaddr | PG_US_U | PG_RW_W | PG_P_1`
unfoldable pub entry_for : ℕ → ℕ
entry_for page_phyaddr = bit_or page_phyaddr 7

unfoldable pub is_present : ℕ → Bool
is_present entry = not (bit_and entry 1 == 0)

-- Whether the addresses `a` and `ptr` of entries lead to tables in one frame
unfoldable pub one_table : Memory → ℕ → ℕ → Bool
one_table entries a ptr =
    leb 0xffc00000 a
    && is_present (entries (pte_ptr a))
    && entries (pte_ptr a) / pg_size == entries (pte_ptr ptr) / pg_size

-- `*ptr = value`, which all addresses of the word see
unfoldable pub write_entry : Memory → ℕ → ℕ → Memory
write_entry entries ptr value a =
    if a == ptr || (a % pg_size == ptr % pg_size && one_table entries a ptr)
    then value
    else entries a

unfoldable pub addr_v2p : Memory → ℕ → ℕ
addr_v2p entries vaddr =
    add32 (bit_and (entries (pte_ptr vaddr)) 0xfffff000) (bit_and vaddr 0x00000fff)

-- The loops of `vaddr_get` and `vaddr_remove`; the first argument is `pg_cnt - cnt`.
unfoldable pub set_run : ℕ → Bitmap → ℕ → ℕ → Outcome Bitmap
set_run zero btmp bit_idx value = ok btmp
set_run (suc n) btmp bit_idx value = do
  btmp' ← bitmap_set btmp bit_idx value
  set_run n btmp' (add32 bit_idx 1) value

unfoldable pub vaddr_of : VirtualAddrPool → ℕ → ℕ
vaddr_of pool bit_idx = add32 pool.vaddr_start (mul32 bit_idx pg_size)

-- What both branches of `vaddr_get` do to their pool
unfoldable pub vaddr_take : VirtualAddrPool → ℕ → Outcome (Option (ℕ × VirtualAddrPool))
vaddr_take pool pg_cnt = do
  found ← bitmap_scan pool.vaddr_bitmap pg_cnt
  elim found [
    | none ↦ ok none
    | some bit_idx_start ↦ (do
      btmp ← set_run pg_cnt pool.vaddr_bitmap bit_idx_start 1
      ok (some (vaddr_of pool bit_idx_start, record pool { vaddr_bitmap = btmp })))
  ]

-- `none` is NULL.
unfoldable pub vaddr_get : Machine → PoolFlags → ℕ → Outcome (Option (ℕ × Machine))
vaddr_get m PoolFlags.pf_kernel pg_cnt = do
  taken ← vaddr_take m.kernel_vaddr_pool pg_cnt
  elim taken [
    | none ↦ ok none
    | some (vaddr_start, pool) ↦ ok (some (vaddr_start, record m { kernel_vaddr_pool = pool }))
  ]
vaddr_get m PoolFlags.pf_user pg_cnt = do
  taken ← vaddr_take m.userprog_vaddr pg_cnt
  elim taken [
    | none ↦ ok none
    | some (vaddr_start, pool) ↦ (do
      assert (ltb vaddr_start (0xc0000000 - pg_size))
      ok (some (vaddr_start, record m { userprog_vaddr = pool })))
  ]

unfoldable pub palloc : Pool → Outcome (Option (ℕ × Pool))
palloc m_pool = do
  found ← bitmap_scan m_pool.pool_bitmap 1
  elim found [
    | none ↦ ok none
    | some bit_idx ↦ (do
      btmp ← bitmap_set m_pool.pool_bitmap bit_idx 1
      ok (
          some (
            add32 m_pool.phy_addr_start (mul32 bit_idx pg_size),
            record m_pool { pool_bitmap = btmp },
          )))
  ]

-- What both branches of `pfree` and of `free_a_phy_addr` do to their pool
unfoldable pub pool_free : Pool → ℕ → Outcome Pool
pool_free pl pg_phyaddr = do
  btmp ← bitmap_set pl.pool_bitmap (sub32 pg_phyaddr pl.phy_addr_start / pg_size) 0
  ok (record pl { pool_bitmap = btmp })

unfoldable pub pfree : Machine → ℕ → Outcome Machine
pfree m pg_phyaddr =
    if leb m.user_pool.phy_addr_start pg_phyaddr
    then (do pl ← pool_free m.user_pool pg_phyaddr; ok (record m { user_pool = pl }))
    else (do pl ← pool_free m.kernel_pool pg_phyaddr; ok (record m { kernel_pool = pl }))

-- `memset(page, 0, PG_SIZE)` of a page table, word by word
unfoldable pub clear_table : Memory → ℕ → Memory
clear_table entries page a =
    if (leb page a && ltb a (page + pg_size)) || one_table entries a page then 0 else entries a

frame_or_null : Pool → Option (ℕ × Pool) → ℕ × Pool
frame_or_null pool none = (0, pool)
frame_or_null pool (some found) = found

-- The NULL of `palloc` is the frame address 0 that the source then uses.
unfoldable pub page_table_add : Machine → ℕ → ℕ → Outcome Machine
unfolding frame_or_null
page_table_add m vaddr page_phyaddr =
    let pde = pde_ptr vaddr in
    let pte = pte_ptr vaddr in
    if is_present (m.entries pde)
    then (do
      assert (not (is_present (m.entries pte)))
      ok (record m { entries = write_entry m.entries pte (entry_for page_phyaddr) }))
    else (do
      got ← palloc m.kernel_pool
      let (pt_phyaddr, pool) = frame_or_null m.kernel_pool got
      let entries₁ = write_entry m.entries pde (entry_for pt_phyaddr)
      let entries₂ = clear_table entries₁ (bit_and pte 0xfffff000)
      assert (not (is_present (entries₂ pte)))
      ok (record m {
        kernel_pool = pool;
        entries = write_entry entries₂ pte (entry_for page_phyaddr);
      }))

unfoldable pub page_table_pte_remove : Memory → ℕ → Memory
page_table_pte_remove entries vaddr =
    let pte = pte_ptr vaddr in write_entry entries pte (bit_and (entries pte) 0xfffffffe)

-- `pf & PF_KERNEL ? &kernel_pool : &user_pool`, read and written
abbrev pub mem_pool : Machine → PoolFlags → Pool
mem_pool m PoolFlags.pf_kernel = m.kernel_pool
mem_pool m PoolFlags.pf_user = m.user_pool

abbrev pub set_mem_pool : Machine → PoolFlags → Pool → Machine
set_mem_pool m PoolFlags.pf_kernel pool = record m { kernel_pool = pool }
set_mem_pool m PoolFlags.pf_user pool = record m { user_pool = pool }

-- A frame for one page: `palloc` and `page_table_add`
unfoldable pub add_page : Machine → PoolFlags → ℕ → Outcome (Option Machine)
add_page m pf vaddr = do
  got ← palloc (mem_pool m pf)
  elim got [
    | none ↦ ok none
    | some (page_phyaddr, pool) ↦ (do
      m' ← page_table_add (set_mem_pool m pf pool) vaddr page_phyaddr
      ok (some m'))
  ]

-- The loop of `malloc_page`; what it has taken stays taken where it fails.
unfoldable pub add_pages : ℕ → Machine → PoolFlags → ℕ → Outcome (Bool × Machine)
add_pages zero m pf vaddr = ok (true, m)
add_pages (suc cnt) m pf vaddr = do
  added ← add_page m pf vaddr
  elim added [ none ↦ ok (false, m) | some m' ↦ add_pages cnt m' pf (add32 vaddr pg_size) ]

-- The result is NULL or the address, with the state in either case.
unfoldable pub malloc_page : Machine → PoolFlags → ℕ → Outcome (Option ℕ × Machine)
malloc_page m pf pg_cnt = do
  assert (ltb 0 pg_cnt && ltb pg_cnt 3840)
  got ← vaddr_get m pf pg_cnt
  elim got [
    | none ↦ ok (none, m)
    | some (vaddr_start, m₁) ↦ (do
      added ← add_pages pg_cnt m₁ pf vaddr_start
      ok ((if added.0 then some vaddr_start else none), added.1))
  ]

-- `get_a_page_without_opvaddrbitmap`, between its `lock_acquire` and `lock_release`
unfoldable pub get_a_page_without_opvaddrbitmap :
    Machine → PoolFlags → ℕ → Outcome (Option ℕ × Machine)
get_a_page_without_opvaddrbitmap m pf vaddr = do
  added ← add_page m pf vaddr
  elim added [ none ↦ ok (none, m) | some m' ↦ ok (some vaddr, m') ]

-- The mark of one page in a pool of addresses
unfoldable pub vaddr_mark : VirtualAddrPool → ℕ → ℕ → Outcome VirtualAddrPool
vaddr_mark pool vaddr value = do
  btmp ← bitmap_set pool.vaddr_bitmap (sub32 vaddr pool.vaddr_start / pg_size) value
  ok (record pool { vaddr_bitmap = btmp })

-- Which pool of addresses `get_a_page` writes
unfoldable pub claim_vaddr : Machine → PoolFlags → ℕ → Outcome Machine
claim_vaddr m PoolFlags.pf_user vaddr =
    if m.has_pgdir
    then (do pool ← vaddr_mark m.userprog_vaddr vaddr 1; ok (record m { userprog_vaddr = pool }))
    else panic
claim_vaddr m PoolFlags.pf_kernel vaddr =
    if not m.has_pgdir
    then (do
      assert (ltb 0 (sub32 vaddr m.kernel_vaddr_pool.vaddr_start / pg_size))
      pool ← vaddr_mark m.kernel_vaddr_pool vaddr 1
      ok (record m { kernel_vaddr_pool = pool }))
    else panic

unfoldable pub get_a_page : Machine → PoolFlags → ℕ → Outcome (Option ℕ × Machine)
get_a_page m pf vaddr = do m₁ ← claim_vaddr m pf vaddr; get_a_page_without_opvaddrbitmap m₁ pf vaddr

unfoldable pub vaddr_remove : Machine → PoolFlags → ℕ → ℕ → Outcome Machine
vaddr_remove m PoolFlags.pf_kernel vaddr pg_cnt = do
  let pool = m.kernel_vaddr_pool
  btmp ← set_run pg_cnt pool.vaddr_bitmap (sub32 vaddr pool.vaddr_start / pg_size) 0
  ok (record m { kernel_vaddr_pool = record pool { vaddr_bitmap = btmp } })
vaddr_remove m PoolFlags.pf_user vaddr pg_cnt = do
  let pool = m.userprog_vaddr
  btmp ← set_run pg_cnt pool.vaddr_bitmap (sub32 vaddr pool.vaddr_start / pg_size) 0
  ok (record m { userprog_vaddr = record pool { vaddr_bitmap = btmp } })

-- The two loops of `mfree_page`, which differ in the ASSERT on the frame
unfoldable pub free_pages : ℕ → (ℕ → Bool) → Machine → ℕ → Outcome Machine
free_pages zero in_pool m vaddr = ok m
free_pages (suc n) in_pool m vaddr = do
  let pg_phyaddr = addr_v2p m.entries vaddr
  assert (pg_phyaddr % pg_size == 0 && in_pool pg_phyaddr)
  m₁ ← pfree m pg_phyaddr
  let m₂ = record m₁ { entries = page_table_pte_remove m₁.entries vaddr }
  free_pages n in_pool m₂ (add32 vaddr pg_size)

unfoldable pub mfree_page : Machine → PoolFlags → ℕ → ℕ → Outcome Machine
mfree_page m pf vaddr pg_cnt = do
  assert (vaddr % pg_size == 0 && ltb 0 pg_cnt)
  let pg_phyaddr = addr_v2p m.entries vaddr
  assert (pg_phyaddr % pg_size == 0 && leb 0x102000 pg_phyaddr)
  let user = m.user_pool.phy_addr_start
  m₁ ←
      if leb user pg_phyaddr
      then free_pages pg_cnt (λ frame. leb user frame) m vaddr
      else free_pages pg_cnt (λ frame. leb m.kernel_pool.phy_addr_start frame && ltb frame user) m
          vaddr
  vaddr_remove m₁ pf vaddr pg_cnt
