-- ===== src/Heap/Return.antt =====
-- `sys_free` keeps the headers of the arenas right, and takes back what `sys_malloc` gave.
use seeking_os.Prelude.{
  ℕ, suc, ◌+◌, ◌*◌, ◌≤◌, ◌<◌, ◌≡◌, refl, ◌≢◌, arith, true, false, ◌&&◌, ◌||◌, none, some, List, ◌∷◌,
  Bool-cases, inl, inr, ◌==◌, ==-refl, if◌then◌else◌, Outcome, ok, panic, ltb, leb, add32, sub32,
}
use seeking_os.Thread.Queue.{elem_find, list_append}
use seeking_os.Pages.{mem_pool}
use seeking_os.Pages.Init.{k_heap_start}
use seeking_os.Heap.{
  Arena, MemBlockDesc, Heap, set_arena, set_free_list, find_desc, desc_cnt, flags_of, block2arena,
  release_arena, free_small, sys_free, take_block, malloc_small, sys_malloc,
}
use seeking_os.Heap.Sizes.{HasSizes-fits, find_desc_lem}
use seeking_os.Heap.Counts.{in_arena}
use seeking_os.Heap.Headers.{
  said_by, IsHeap, header_of_free, but-IsHeap, place_of_header, same_but_list,
}
use seeking_os.Heap.Malloc.{take_block_lem}
use seeking_os.Heap.Free.{one_more}

large_said :
    (descs : ℕ → MemBlockDesc) (h : Heap) (a k : ℕ) (arena : Arena)
    → h.arenas a ≡ some arena
    → arena.desc ≡ none
    → said_by (h.arenas a) k ≡ 0
large_said descs h a k arena at desc = rw (at, desc) refl

-- What `sys_free` does with the header it finds
free_by : Heap → ℕ → ℕ → Arena → Outcome Heap
free_by h ptr a arena = elim arena.desc [
  | none ↦ (if arena.large then release_arena h a arena.cnt else panic)
  | some d ↦ free_small h ptr a arena d
]

-- In a small arena, `ptr` is where one of its blocks starts.
abbrev pub IsBlock : Heap → ℕ → Type 0
IsBlock h ptr =
    (arena : Arena) (d : ℕ)
    → h.arenas (block2arena ptr) ≡ some arena
    → arena.desc ≡ some d
    → (idx : ℕ) × (idx < (h.descs d).blocks_per_arena)
      × (ptr ≡ block2arena ptr + 12 + idx * (h.descs d).block_size)

-- A block that is taken from a free list comes back to its end, and its header says what it said.
take_then_free :
    (h : Heap) (d b : ℕ) (rest : List ℕ) (arena : Arena)
    → IsHeap h
    → d < 7
    → (h.descs d).free_list ≡ b ∷ rest
    → h.arenas (block2arena b) ≡ some arena
    → arena.desc ≡ some d
    → arena.cnt ≡ suc (in_arena (block2arena b) rest)
    → elem_find rest b ≡ false
    → (h₁ h₂ : Heap) × (take_block h d ≡ ok (some b, h₁))
      × (h₁.machine ≡ h.machine)
      × (h₁.arenas (block2arena b) ≡ some (record arena { cnt = sub32 arena.cnt 1 }))
      × (free_small h₁ b (block2arena b) (record arena { cnt = sub32 arena.cnt 1 }) d ≡ ok h₂)
      × ((a : ℕ) → h₂.arenas a ≡ h.arenas a)
      × ((k : ℕ)
          → (h₂.descs k).free_list ≡ (if k == d then list_append rest b else (h.descs k).free_list))
unfolding free_small
take_then_free h d b rest arena i lt e at desc cnt once =
    let a₀ = block2arena b in
    let less_one : Arena = record arena { cnt = sub32 arena.cnt 1 } in
    let h₁ = set_arena (set_free_list h d rest) a₀ (some less_one) in
    let (aligned, word, less) =
      place_of_header h.descs a₀ 0 d arena (h.arenas a₀) at desc (i.headers a₀) in
    let (sized, fits, many, few) = HasSizes-fits h.descs d i.sizes lt in
    let again : add32 (sub32 arena.cnt 1) 1 ≡ arena.cnt = ground arith in
    let not_all : (arena.cnt == (h.descs d).blocks_per_arena) ≡ false = ground arith in
    let blocks = (same_but_list h d rest d).1 in
    let absent : elem_find (h₁.descs d).free_list b ≡ false = rw (==-refl) once in
    let not_all₁ : (add32 (sub32 arena.cnt 1) 1 == (h₁.descs d).blocks_per_arena) ≡ false =
      rw (again, blocks) not_all in
    (
      h₁,
      one_more h₁ b d less_one,
      take_block_lem h d b rest arena e at,
      refl,
      rw (==-refl) refl,
      rw (absent, not_all₁, free_small) refl,
      λ a. elim (Bool-cases (a == a₀)) [
        | inl here ↦ let a≡ : a ≡ a₀ = ground arith in rw (here, a≡, at, again) refl
        | inr off ↦ rw off refl
      ],
      λ k. elim (Bool-cases (k == d)) [
        | inl same ↦ rw (same, ==-refl) refl
        | inr other ↦ rw other refl
      ],
    )

-- A pointer to a block of a small arena reaches `free_small`.
sys_free_small :
    (h h' : Heap) (ptr d : ℕ) (arena : Arena)
    → (ptr == 0) ≡ false
    → (h.machine.has_pgdir || leb k_heap_start ptr) ≡ true
    → h.arenas (block2arena ptr) ≡ some arena
    → arena.desc ≡ some d
    → free_small h ptr (block2arena ptr) arena d ≡ ok h'
    → sys_free h ptr ≡ ok h'
unfolding sys_free
sys_free_small h h' ptr d arena given kernel at desc ran = rw (given, kernel, at, desc) ran

-- For 1 to 1024 bytes, below the size of the pool, and a free list that starts with a block and has
-- it once, `sys_malloc` gives this block and `sys_free` takes it back, which leaves the headers as
-- they were and the block at the end of its list; the kernel has its heap at and above
-- `K_HEAP_START`.
pub malloc_then_free :
    (h : Heap) (size b : ℕ) (rest : List ℕ)
    → IsHeap h
    → 0 < size
    → size ≤ 1024
    → size < (mem_pool h.machine (flags_of h.machine)).pool_size
    → (h.descs (find_desc desc_cnt h.descs size 0)).free_list ≡ b ∷ rest
    → elem_find rest b ≡ false
    → b ≢ 0
    → (h.machine.has_pgdir || leb k_heap_start b) ≡ true
    → (h₁ h₂ : Heap) × (sys_malloc h size ≡ ok (some b, h₁))
      × (sys_free h₁ b ≡ ok h₂)
      × ((a : ℕ) → h₂.arenas a ≡ h.arenas a)
      × ((k : ℕ)
          → (h₂.descs k).free_list ≡ (
              if k == find_desc desc_cnt h.descs size 0
              then list_append rest b
              else (h.descs k).free_list))
unfolding sys_malloc malloc_small
malloc_then_free h size b rest i pos le below e once nonzero kernel =
    let d = find_desc desc_cnt h.descs size 0 in
    let pl = mem_pool h.machine (flags_of h.machine) in
    let (lt, large, before) = find_desc_lem h.descs size i.sizes le in
    let but = but-IsHeap (λ a. if a == block2arena b then 1 else 0) h i in
    let (arena, at, desc, cnt) = header_of_free _ h d b rest but lt e in
    let (h₁, h₂, took, same, at₁, freed, arenas, lists) =
      take_then_free h d b rest arena i lt e at desc cnt once in
    let inside : (ltb 0 size && ltb size pl.pool_size) ≡ true = ground arith in
    let small : ltb 1024 size ≡ false = ground arith in
    let given : (b == 0) ≡ false = ground arith in
    (
      h₁,
      h₂,
      rw (inside, small, e, malloc_small) took,
      sys_free_small h₁ h₂ b d _ given (rw same kernel) at₁ desc freed,
      arenas,
      lists,
    )
