-- ===== src/Heap.antt =====
-- kernel/memory.c: `sys_malloc` and `sys_free`, on top of the pages.
-- The heap is that of the task that runs: `descs` is `k_block_descs` for the kernel and the
-- `u_block_descs` of a process, and `arenas` are the headers at the starts of mapped pages, `none`
-- where no arena stands. A free list is the addresses of its blocks. The lock of the pool is held from
-- the start to the end of a call.
pub mod Sizes
pub mod Blocks
pub mod Counts
pub mod Headers
pub mod Malloc
pub mod Free
pub mod Return
mod Tests
use seeking_os.Prelude.{
  ℕ, zero, suc, ◌+◌, ◌-◌, ◌*◌, ◌/◌, ◌%◌, ◌^◌, Bool, true, false, not, ◌&&◌, ◌||◌, Option, none,
  some, List, [], ◌∷◌, Outcome, ok, panic, assert, ◌>>=◌, ◌>>◌, ◌==◌, ltb, leb, if◌then◌else◌,
  add32, sub32, mul32, bit_and,
}
use seeking_os.Thread.Queue.{elem_find, list_append}
use seeking_os.Pages.{
  Machine, PoolFlags, pf_kernel, pf_user, pg_size, mem_pool, malloc_page, mfree_page, pool_free,
}
use seeking_os.Pages.Init.{k_heap_start}

abbrev pub desc_cnt : ℕ
desc_cnt = 7

-- `sizeof(struct arena)`
abbrev pub arena_size : ℕ
arena_size = 12

-- `desc` is the index of the descriptor, `none` for NULL.
pub record Arena : Type 0 where
  pub desc : Option ℕ
  pub cnt : ℕ
  pub large : Bool

pub record MemBlockDesc : Type 0 where
  pub block_size : ℕ
  pub blocks_per_arena : ℕ
  pub free_list : List ℕ

pub record Heap : Type 0 where
  pub machine : Machine
  pub descs : ℕ → MemBlockDesc
  pub arenas : ℕ → Option Arena

abbrev pub set_arena : Heap → ℕ → Option Arena → Heap
set_arena h a arena = record h { arenas = λ x. if x == a then arena else h.arenas x }

abbrev pub set_free_list : Heap → ℕ → List ℕ → Heap
set_free_list h d xs = record h {
  descs = λ i. if i == d then record (h.descs d) { free_list = xs } else h.descs i;
}

-- The loop of `block_descs_init`, with the descriptors to go
unfoldable pub init_descs : ℕ → ℕ → ℕ → (ℕ → MemBlockDesc) → ℕ → MemBlockDesc
init_descs zero i size desc_array = desc_array
init_descs (suc n) i size desc_array = init_descs n (i + 1) (mul32 size 2) λ j.
    if j == i
    then record {
      block_size = size;
      blocks_per_arena = (pg_size - arena_size) / size;
      free_list = [];
    }
    else desc_array j

unfoldable pub block_descs_init : (ℕ → MemBlockDesc) → ℕ → MemBlockDesc
block_descs_init desc_array = init_descs desc_cnt 0 16 desc_array

-- With the block size of the arena's descriptor
unfoldable pub arena2block : ℕ → ℕ → ℕ → ℕ
arena2block block_size a idx = add32 (add32 a arena_size) (mul32 idx block_size)

unfoldable pub block2arena : ℕ → ℕ
block2arena b = bit_and b 0xfffff000

-- The loop that looks for a descriptor, with those to go
unfoldable pub find_desc : ℕ → (ℕ → MemBlockDesc) → ℕ → ℕ → ℕ
find_desc zero descs size desc_idx = desc_idx
find_desc (suc n) descs size desc_idx =
    let rest = find_desc n descs size (desc_idx + 1) in
    if leb size (descs desc_idx).block_size then desc_idx else rest

-- The loop that cuts an arena into blocks, with those to go
unfoldable pub split_arena : ℕ → ℕ → ℕ → ℕ → List ℕ → Outcome (List ℕ)
split_arena zero block_size a block_idx free_list = ok free_list
split_arena (suc n) block_size a block_idx free_list = do
  let b = arena2block block_size a block_idx
  assert (not (elem_find free_list b))
  split_arena n block_size a (block_idx + 1) (list_append free_list b)

abbrev pub flags_of : Machine → PoolFlags
flags_of m = if m.has_pgdir then pf_user else pf_kernel

-- `DIV_ROUND_UP(size + sizeof(struct arena), PG_SIZE)`
unfoldable pub pages_for : ℕ → ℕ
pages_for size = add32 (add32 size arena_size) (pg_size - 1) / pg_size

-- The branch for more than 1024 bytes
unfoldable pub malloc_large : Heap → ℕ → Outcome (Option ℕ × Heap)
malloc_large h size = do
  let pg_cnt = pages_for size
  (got, m) ← malloc_page h.machine (flags_of h.machine) pg_cnt
  let h₁ = record h { machine = m }
  elim got [
    | none ↦ ok (none, h₁)
    | some a ↦ ok (
      some (add32 a arena_size),
      set_arena h₁ a (some (record { desc = none; cnt = pg_cnt; large = true })),
    )
  ]

-- A new arena for descriptor `d`; whether there is one
unfoldable pub new_arena : Heap → ℕ → Outcome (Bool × Heap)
new_arena h d = do
  (got, m) ← malloc_page h.machine (flags_of h.machine) 1
  let h₁ = record h { machine = m }
  elim got [
    | none ↦ ok (false, h₁)
    | some a ↦ (do
      let desc = h.descs d
      free_list ← split_arena desc.blocks_per_arena desc.block_size a 0 desc.free_list
      let arena : Arena = record { desc = some d; cnt = desc.blocks_per_arena; large = false }
      ok (true, set_free_list (set_arena h₁ a (some arena)) d free_list))
  ]

-- The first block of a free list, whose arena has one less then
unfoldable pub take_block : Heap → ℕ → Outcome (Option ℕ × Heap)
take_block h d = elim (h.descs d).free_list [
  | [] ↦ panic
  | b ∷ rest ↦ elim (h.arenas (block2arena b)) [
    | none ↦ panic
    | some arena ↦ ok (
      some b,
      set_arena (set_free_list h d rest) (block2arena b)
          (some (record arena { cnt = sub32 arena.cnt 1 })),
    )
  ]
]

-- With an empty free list: a block of a new arena
unfoldable pub take_new_block : Heap → ℕ → Outcome (Option ℕ × Heap)
take_new_block h d = do
  (there, h₁) ← new_arena h d
  elim there [ false ↦ ok (none, h₁) | true ↦ take_block h₁ d ]

unfoldable pub malloc_small : Heap → ℕ → Outcome (Option ℕ × Heap)
malloc_small h size =
    let d = find_desc desc_cnt h.descs size 0 in
    elim (h.descs d).free_list [ [] ↦ take_new_block h d | b ∷ rest ↦ take_block h d ]

-- The address, `none` for NULL, with the heap
unfoldable pub sys_malloc : Heap → ℕ → Outcome (Option ℕ × Heap)
sys_malloc h size =
    let pl = mem_pool h.machine (flags_of h.machine) in
    if not (ltb 0 size && ltb size pl.pool_size)
    then ok (none, h)
    else if ltb 1024 size
    then malloc_large h size
    else malloc_small h size

-- `list_remove` of a block from its free list
abbrev pub remove_block : List ℕ → ℕ → List ℕ
remove_block [] b = []
remove_block (x ∷ xs) b = if x == b then xs else x ∷ remove_block xs b

-- The loop that takes the blocks of an arena from the free list, with those to go
unfoldable pub gather_blocks : ℕ → ℕ → ℕ → ℕ → List ℕ → Outcome (List ℕ)
gather_blocks zero block_size a bk_idx free_list = ok free_list
gather_blocks (suc n) block_size a bk_idx free_list = do
  let b = arena2block block_size a bk_idx
  assert (elem_find free_list b)
  gather_blocks n block_size a (bk_idx + 1) (remove_block free_list b)

-- The page of an arena is given back with all that stands in it.
unfoldable pub release_arena : Heap → ℕ → ℕ → Outcome Heap
release_arena h a pg_cnt = do
  m ← mfree_page h.machine (flags_of h.machine) a pg_cnt
  ok (set_arena (record h { machine = m }) a none)

-- The branch for a block of descriptor `d`. `list_append` of a block that is on the list already would
-- bend the links of the list into a ring, which is the `panic` here.
unfoldable pub free_small : Heap → ℕ → ℕ → Arena → ℕ → Outcome Heap
free_small h b a arena d = do
  let desc = h.descs d
  assert (not (elem_find desc.free_list b))
  let free_list = list_append desc.free_list b
  let cnt = add32 arena.cnt 1
  let h₁ = set_arena (set_free_list h d free_list) a (some (record arena { cnt = cnt }))
  elim (cnt == desc.blocks_per_arena) [
    | true ↦ (do
      gathered ← gather_blocks desc.blocks_per_arena desc.block_size a 0 free_list
      release_arena (set_free_list h₁ d gathered) a 1)
    | false ↦ ok h₁
  ]

unfoldable pub sys_free : Heap → ℕ → Outcome Heap
sys_free h ptr = do
  assert (not (ptr == 0))
  assert (h.machine.has_pgdir || leb k_heap_start ptr)
  let a = block2arena ptr
  elim (h.arenas a) [
    | none ↦ panic
    | some arena ↦ elim arena.desc [
      | none ↦ (if arena.large then release_arena h a arena.cnt else panic)
      | some d ↦ free_small h ptr a arena d
    ]
  ]

-- `free_a_phy_addr`, which does what `pfree` does
unfoldable pub free_a_phy_addr : Machine → ℕ → Outcome Machine
free_a_phy_addr m pg_phyaddr =
    if leb m.user_pool.phy_addr_start pg_phyaddr
    then (do pl ← pool_free m.user_pool pg_phyaddr; ok (record m { user_pool = pl }))
    else (do pl ← pool_free m.kernel_pool pg_phyaddr; ok (record m { kernel_pool = pl }))
