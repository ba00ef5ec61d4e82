-- ===== src/Heap/Tests.antt =====
-- Small heaps of the kernel for `sys_malloc` and `sys_free`.
use seeking_os.Prelude.{
  ℕ, ◌%◌, ◌^◌, ◌<◌, ◌≡◌, refl, subst, false, Option, none, some, arith, Outcome, ok, panic, ◌==◌,
  if◌then◌else◌, [], ◌∷◌, Bool-cases, inl, inr,
}
use mathlib.Core.Option.{some-injective}
use seeking_os.Bitmap.{
  Bitmap, bitmap_scan, bitmap_set, find_byte, find_bit, scan_from, scan_run, bitmap_scan_test,
}
use seeking_os.Bitmap.Byte.{bit_of, with_bit}
use seeking_os.Pages.{
  Pool, VirtualAddrPool, Machine, PoolFlags, malloc_page, vaddr_get, vaddr_take, set_run, add_pages,
  add_page, palloc, page_table_add, is_present, pde_ptr, pte_ptr, vaddr_of, clear_table, entry_for,
}
use seeking_os.Heap.{
  Arena, MemBlockDesc, Heap, set_free_list, block_descs_init, init_descs, find_desc, block2arena,
  sys_malloc, sys_free,
}
use seeking_os.Heap.Sizes.{block_descs_init-HasSizes}
use seeking_os.Heap.Counts.{in_arena}
use seeking_os.Heap.Headers.{IsHeader, IsHeap, set_free_list-HasSizes}
use seeking_os.Heap.Malloc.{sys_malloc-IsHeap}
use seeking_os.Heap.Return.{malloc_then_free}

-- Pages 0, 1, 2 and 4 are taken.
abbrev sparse : Bitmap
sparse = record { btmp_bytes_len = 2; bits = λ a. if a == 0 then 0x17 else 0 }

abbrev frames : Pool
frames = record { pool_bitmap = sparse; phy_addr_start = 0x200000; pool_size = 0x10000 }

abbrev addresses : VirtualAddrPool
addresses = record { vaddr_bitmap = sparse; vaddr_start = 0xc0100000 }

abbrev machine : Machine
machine = record {
  kernel_pool = frames;
  user_pool = frames;
  kernel_vaddr_pool = addresses;
  userprog_vaddr = addresses;
  has_pgdir = false;
  entries = λ a. if a == 0xfffffc00 then 0x101007 else 0;
}

abbrev nothing : ℕ → MemBlockDesc
nothing i = record { block_size = 0; blocks_per_arena = 0; free_list = [] }

abbrev fresh : ℕ → MemBlockDesc
fresh = block_descs_init nothing

abbrev empty_heap : Heap
empty_heap = record { machine = machine; descs = fresh; arenas = λ a. none }

empty_heap-IsHeap : IsHeap empty_heap
unfolding in_arena
empty_heap-IsHeap = record {
  sizes = (block_descs_init-HasSizes nothing).0;
  counted = λ d a lt. let free = (block_descs_init-HasSizes nothing).1 d lt in rw free refl;
  headers = λ a. tt;
}

abbrev machine_after : Outcome (Option ℕ × Machine) → Machine
machine_after (ok (got, m)) = m
machine_after panic = machine
machine_after Outcome.out_of_fuel = machine

sys_malloc-IsHeap_example :
    (r : Option ℕ) × (h' : Heap) × (sys_malloc empty_heap 100 ≡ ok (r, h')) × IsHeap h'
unfolding malloc_page vaddr_get vaddr_take bitmap_scan find_byte find_bit bit_of scan_from set_run
    bitmap_set add_pages add_page palloc page_table_add is_present pde_ptr pte_ptr vaddr_of with_bit
    bitmap_scan_test scan_run clear_table entry_for
sys_malloc-IsHeap_example =
    sys_malloc-IsHeap empty_heap 100 (some 0xc0103000)
      (machine_after (malloc_page machine PoolFlags.pf_kernel 1)) empty_heap-IsHeap
      (
        refl,
        λ a e.
            let at : 0xc0103000 ≡ a = some-injective _ _ e in
            (refl, subst (λ x. x % 4096 ≡ 0) at refl, subst (λ x. x < 2 ^ 32) at (omega arith)),
      )

-- One arena of blocks of 16 bytes, of which the first is free
abbrev one_arena : Heap
one_arena =
    set_free_list
      (record empty_heap {
        arenas = λ a.
            if a == 0xc0103000
            then some (record { desc = some 0; cnt = 1; large = false })
            else none;
      })
      0 (0xc010300c ∷ [])

first_block : block2arena 0xc010300c ≡ 0xc0103000
unfolding block2arena
first_block = refl

one_arena-headers : (a : ℕ) → IsHeader one_arena.descs a 0 (one_arena.arenas a)
unfolding block_descs_init init_descs
one_arena-headers a = elim (Bool-cases (a == 0xc0103000)) [
  | inl here ↦
      let at : a ≡ 0xc0103000 = ground arith in
      rw (here, at) (refl, omega arith, (omega arith, omega arith))
  | inr off ↦ rw off tt
]

one_arena-IsHeap : IsHeap one_arena
unfolding in_arena
one_arena-IsHeap = record {
  sizes =
      set_free_list-HasSizes empty_heap 0 (0xc010300c ∷ []) (block_descs_init-HasSizes nothing).0;
  counted = λ d a lt. elim (Bool-cases (d == 0)) [
    | inl same ↦
        let e : d ≡ 0 = ground arith in
        elim (Bool-cases (a == 0xc0103000)) [
          | inl here ↦
              let at : a ≡ 0xc0103000 = ground arith in rw (same, here, first_block, at, e) refl
          | inr off ↦ rw (same, off, first_block) (ground arith)
        ]
    | inr other ↦
        let free = (block_descs_init-HasSizes nothing).1 d lt in
        let apart : (0 == d) ≡ false = ground arith in
        elim (Bool-cases (a == 0xc0103000)) [
          | inl here ↦ rw (other, here, free, apart) refl
          | inr off ↦ rw (other, off, free) refl
        ]
  ];
  headers = one_arena-headers;
}

abbrev heap_after : Outcome Heap → Heap
heap_after (ok h) = h
heap_after panic = one_arena
heap_after Outcome.out_of_fuel = one_arena

abbrev desc_of : Option Arena → Option ℕ
desc_of none = none
desc_of (some arena) = arena.desc

malloc_then_free_example :
    (h₁ h₂ : Heap) × (sys_malloc one_arena 16 ≡ ok (some 0xc010300c, h₁))
    × (sys_free h₁ 0xc010300c ≡ ok h₂)
    × ((a : ℕ) → h₂.arenas a ≡ one_arena.arenas a)
    × ((k : ℕ)
        → (h₂.descs k).free_list
          ≡ (if k == 0 then 0xc010300c ∷ [] else (one_arena.descs k).free_list))
unfolding find_desc block_descs_init init_descs
malloc_then_free_example =
    malloc_then_free one_arena 16 0xc010300c [] one_arena-IsHeap (omega arith) (omega arith)
      (omega arith) refl refl (λ e. omega arith) refl
