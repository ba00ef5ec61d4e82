-- ===== src/Pages/Tests.antt =====
-- Pools of sixteen pages for kernel/memory.c.
use seeking_os.Prelude.{
  ℕ, ◌+◌, ◌/◌, ◌%◌, ◌^◌, ◌<◌, ◌≡◌, refl, true, false, ◌||◌, Option, arith, ok, ◌==◌, if◌then◌else◌,
}
use seeking_os.Bitmap.{Bitmap, bitmap_scan_test}
use seeking_os.Bitmap.Byte.{bit_of}
use seeking_os.Bitmap.Scan.{IsValid}
use seeking_os.Pages.{
  Pool, VirtualAddrPool, Machine, pte_ptr, pde_ptr, is_present, addr_v2p, vaddr_take,
  page_table_add,
}
use seeking_os.Pages.Mapping.{Apart, page_table_add-maps}
use seeking_os.Pages.Runs.{Taken, vaddr_take-Taken}

-- Pages 0, 1, 2 and 4 are taken.
abbrev sparse : Bitmap
sparse = record { btmp_bytes_len = 2; bits = λ a. if a == 0 then 0x17 else 0 }

sparse-IsValid : IsValid sparse
sparse-IsValid = record { bytes = λ a. ground arith; small = omega arith }

three_free : bitmap_scan_test sparse 3 ≡ false
unfolding bitmap_scan_test bit_of
three_free = refl

abbrev frames : Pool
frames = record { pool_bitmap = sparse; phy_addr_start = 0x200000; pool_size = 0x10000 }

abbrev addresses : VirtualAddrPool
addresses = record { vaddr_bitmap = sparse; vaddr_start = 0xc0100000 }

-- Only the page table of the first 4 MiB is there, which is the kernel's, too, and it is empty.
abbrev machine : Machine
machine = record {
  kernel_pool = frames;
  user_pool = frames;
  kernel_vaddr_pool = addresses;
  userprog_vaddr = addresses;
  has_pgdir = false;
  entries = λ a. if a == 0xfffff000 || a == 0xfffffc00 then 0x101007 else 0;
}

page_table_add-maps_example :
    (m : Machine) × (page_table_add machine 0xc0100123 0x203000 ≡ ok m)
    × (is_present (m.entries (pte_ptr 0xc0100123)) ≡ true)
    × (addr_v2p m.entries 0xc0100123 ≡ 0x203000 + 0xc0100123 % 4096)
    × ((w : ℕ)
        → w < 2 ^ 32
        → Apart machine.entries 0xc0100123 w
        → addr_v2p m.entries w ≡ addr_v2p machine.entries w)
    × ((w : ℕ)
        → w < 2 ^ 32
        → w / 4096 % 1024 ≡ 0xc0100123 / 4096 % 1024
        → machine.entries (pde_ptr w) ≡ machine.entries (pde_ptr 0xc0100123)
        → addr_v2p m.entries w ≡ 0x203000 + w % 4096)
unfolding pte_ptr pde_ptr is_present
page_table_add-maps_example =
    page_table_add-maps machine 0xc0100123 0x203000 (omega arith) (omega arith) (omega arith) refl
      refl

vaddr_take-Taken_example :
    (t : Option (ℕ × VirtualAddrPool)) × (vaddr_take addresses 2 ≡ ok t) × Taken addresses 2 t
vaddr_take-Taken_example =
    vaddr_take-Taken addresses 2 3 sparse-IsValid (omega arith) (omega arith) (omega arith)
      three_free
