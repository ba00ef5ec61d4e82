-- ===== src/Heap/Malloc.antt =====
-- `sys_malloc` keeps the headers of the arenas right.
use seeking_os.Prelude.{
  ℕ, ◌%◌, ◌^◌, ◌≤◌, ◌<◌, ◌≡◌, refl, sym, arith, true, false, ◌&&◌, Option, none, some, List, [],
  ◌∷◌, Bool-cases, Option-cases, inl, inr, ◌==◌, ==-refl, if◌then◌else◌, ok, ltb, sub32, add32, ◌⊎◌,
}
use seeking_os.Pages.{Machine, malloc_page, mem_pool}
use seeking_os.Heap.{
  Arena, Heap, set_arena, set_free_list, find_desc, desc_cnt, flags_of, block2arena, pages_for,
  malloc_large, new_arena, take_block, take_new_block, malloc_small, sys_malloc, arena_size,
}
use seeking_os.Heap.Sizes.{HasSizes-fits, find_desc_lem}
use seeking_os.Heap.Counts.{hit, in_arena, split_arena_lem}
use seeking_os.Heap.Headers.{
  IsHeapBut, IsHeap, header_of_free, changed-IsHeap, machine-IsHeap, but-IsHeap, place_of_header,
}

pub take_block_lem :
    (h : Heap) (d b : ℕ) (rest : List ℕ) (arena : Arena)
    → (h.descs d).free_list ≡ b ∷ rest
    → h.arenas (block2arena b) ≡ some arena
    → take_block h d
      ≡ ok (
        some b,
        set_arena
            (set_free_list h d rest)
            (block2arena b)
            (some (record arena { cnt = sub32 arena.cnt 1 })),
      )
unfolding take_block
take_block_lem h d b rest arena e at = rw (e, take_block, at) refl

-- `take_block` gives the first block of a list away, and the heap is right again.
pub take_block-IsHeap :
    (h : Heap) (d b : ℕ) (rest : List ℕ)
    → IsHeapBut (λ a. if a == block2arena b then 1 else 0) h
    → d < 7
    → (h.descs d).free_list ≡ b ∷ rest
    → (h' : Heap) × (take_block h d ≡ ok (some b, h')) × IsHeap h' × ((h'.descs d).free_list ≡ rest)
unfolding in_arena
take_block-IsHeap h d b rest i lt e =
    let spare : ℕ → ℕ = λ a. if a == block2arena b then 1 else 0 in
    let (arena, at, desc, cnt) = header_of_free spare h d b rest i lt e in
    let a₀ = block2arena b in
    let (aligned, word, less) =
      place_of_header h.descs a₀ (spare a₀) d arena (h.arenas a₀) at desc (i.headers a₀) in
    let one : spare a₀ ≡ 1 = rw (==-refl) refl in
    let (sized, fits, many, few) = HasSizes-fits h.descs d i.sizes lt in
    let left : sub32 arena.cnt 1 ≡ in_arena a₀ rest = ground arith in
    (
      set_arena (set_free_list h d rest) a₀ (some (record arena { cnt = sub32 arena.cnt 1 })),
      take_block_lem h d b rest arena e at,
      changed-IsHeap spare (λ a. 0) h d a₀ rest (record arena { cnt = sub32 arena.cnt 1 }) i lt desc
          (aligned, word) (omega arith)
          (λ a. elim (Bool-cases (a == a₀)) [
            | inl here ↦ let e' : a ≡ a₀ = ground arith in rw (here, e') (sym left)
            | inr off ↦
                let not_hit : hit b a ≡ 0 = ground arith in rw (off, e) (omega (arith, not_hit))
          ])
          (λ k other. let apart : (d == k) ≡ false = ground arith in rw (at, desc, apart) refl)
          (λ a off. rw off (omega arith)),
      rw (==-refl) refl,
    )

-- A fresh page cut into blocks has all of them on the list, and belongs to no other descriptor.
new_arena-IsHeap :
    (h : Heap) (d a : ℕ) (m : Machine)
    → IsHeap h
    → d < 7
    → (h.descs d).free_list ≡ []
    → malloc_page h.machine (flags_of h.machine) 1 ≡ ok (some a, m)
    → h.arenas a ≡ none
    → (a % 4096 ≡ 0) × (a < 2 ^ 32)
    → (h' : Heap) × (new_arena h d ≡ ok (true, h'))
      × IsHeapBut (λ x. if x == a then 1 else 0) h'
      × ((x : ℕ)
          → in_arena x (h'.descs d).free_list
            ≡ (if x == a then (h.descs d).blocks_per_arena else 0))
unfolding new_arena in_arena
new_arena-IsHeap h d a m i lt empty got free place =
    let desc = h.descs d in
    let (sized, fits, many, few) = HasSizes-fits h.descs d i.sizes lt in
    let arena : Arena = record { desc = some d; cnt = desc.blocks_per_arena; large = false } in
    let (ys, split, counts) =
      split_arena_lem desc.blocks_per_arena desc.block_size desc.blocks_per_arena a 0 desc.free_list
        (record { aligned = place.0; word = place.1; sized = sized; fits = fits }) (omega arith)
        (λ j from to. rw empty refl) in
    let h₁ = record h { machine = m } in
    let all : (x : ℕ) → in_arena x ys ≡ (if x == a then desc.blocks_per_arena else 0) = λ x.
      let nothing : in_arena x desc.free_list ≡ 0 = rw empty refl in
      omega (arith, counts x, nothing) in
    (
      set_free_list (set_arena h₁ a (some arena)) d ys,
      rw (got, split) refl,
      changed-IsHeap (λ x. 0) (λ x. if x == a then 1 else 0) h₁ d a ys arena
          (machine-IsHeap _ h m i) lt refl place (rw (==-refl) (omega arith))
          (λ x.
            let nothing : in_arena x desc.free_list ≡ 0 = rw empty refl in
            ground (arith, all x, nothing))
          (λ k other. rw free refl) (λ x off. omega arith),
      λ x. rw (==-refl) (all x),
    )

List-cases : (xs : List ℕ) → (xs ≡ []) ⊎ ((b : ℕ) × (rest : List ℕ) × (xs ≡ b ∷ rest))
List-cases [] = inl refl
List-cases (b ∷ rest) = inr (b, rest, refl)

-- A list of the blocks of one arena starts with one of them.
first_of_arena :
    (a n b : ℕ) (xs rest : List ℕ)
    → ((x : ℕ) → in_arena x xs ≡ (if x == a then n else 0))
    → xs ≡ b ∷ rest
    → a ≡ block2arena b
unfolding in_arena
first_of_arena a n b xs rest counts e =
    let one : hit b (block2arena b) ≡ 1 = rw (==-refl) refl in
    let here : in_arena (block2arena b) (b ∷ rest) ≡ (if block2arena b == a then n else 0) =
      rw e at (counts (block2arena b)) in
    ground (arith, one, here)

-- The pages that a call asks for come, if they come, without an arena and at the start of a page.
abbrev pub Supplies : Heap → ℕ → Option ℕ → Machine → Type 0
Supplies h pg_cnt got m =
    (malloc_page h.machine (flags_of h.machine) pg_cnt ≡ ok (got, m))
    × ((a : ℕ) → got ≡ some a → (h.arenas a ≡ none) × (a % 4096 ≡ 0) × (a < 2 ^ 32))

new_arena-null :
    (h : Heap) (d : ℕ) (m : Machine)
    → malloc_page h.machine (flags_of h.machine) 1 ≡ ok (none, m)
    → new_arena h d ≡ ok (false, record h { machine = m })
unfolding new_arena
new_arena-null h d m got = rw got refl

take_new_block-IsHeap :
    (h : Heap) (d : ℕ) (got : Option ℕ) (m : Machine)
    → IsHeap h
    → d < 7
    → (h.descs d).free_list ≡ []
    → Supplies h 1 got m
    → (r : Option ℕ) × (h' : Heap) × (take_new_block h d ≡ ok (r, h')) × IsHeap h'
unfolding take_new_block in_arena
take_new_block-IsHeap h d got m i lt empty (ran, fresh) = elim (Option-cases got) [
  | inl e ↦
      let null = new_arena-null h d m (rw e at ran) in
      (none, record h { machine = m }, rw null refl, machine-IsHeap _ h m i)
  | inr (a, e) ↦
      let (free, aligned, word) = fresh a e in
      let (h₁, cut, i₁, counts) =
        new_arena-IsHeap h d a m i lt empty (rw e at ran) free (aligned, word) in
      elim (List-cases (h₁.descs d).free_list) [
        | inl nothing ↦
            let (sized, fits, many, few) = HasSizes-fits h.descs d i.sizes lt in
            let none_ : 0 ≡ (if a == a then (h.descs d).blocks_per_arena else 0) =
              rw nothing at (counts a) in
            absurd (ground (arith, none_))
        | inr (b, rest, first) ↦
            let a≡ = first_of_arena a _ b (h₁.descs d).free_list rest counts first in
            let (h₂, took, i₂, _) = take_block-IsHeap h₁ d b rest (rw a≡ at i₁) lt first in
            (some b, h₂, rw (cut, took) refl, i₂)
      ]
]

malloc_small-IsHeap :
    (h : Heap) (size : ℕ) (got : Option ℕ) (m : Machine)
    → IsHeap h
    → size ≤ 1024
    → Supplies h 1 got m
    → (r : Option ℕ) × (h' : Heap) × (malloc_small h size ≡ ok (r, h')) × IsHeap h'
unfolding malloc_small
malloc_small-IsHeap h size got m i le supplies =
    let d = find_desc desc_cnt h.descs size 0 in
    let (lt, large, before) = find_desc_lem h.descs size i.sizes le in
    elim (List-cases (h.descs d).free_list) [
      | inl empty ↦
          let (r, h', ran, i') = take_new_block-IsHeap h d got m i lt empty supplies in
          (r, h', rw (empty, malloc_small) ran, i')
      | inr (b, rest, first) ↦
          let but = but-IsHeap (λ a. if a == block2arena b then 1 else 0) h i in
          let (h', took, i', _) = take_block-IsHeap h d b rest but lt first in
          (some b, h', rw (first, malloc_small) took, i')
    ]

malloc_large-IsHeap :
    (h : Heap) (size : ℕ) (got : Option ℕ) (m : Machine)
    → IsHeap h
    → Supplies h (pages_for size) got m
    → (r : Option ℕ) × (h' : Heap) × (malloc_large h size ≡ ok (r, h')) × IsHeap h'
unfolding malloc_large
malloc_large-IsHeap h size got m i (ran, fresh) = elim (Option-cases got) [
  | inl e ↦
      let null : malloc_page h.machine (flags_of h.machine) (pages_for size) ≡ ok (none, m) =
        rw e at ran in
      (none, record h { machine = m }, rw null refl, machine-IsHeap _ h m i)
  | inr (a, e) ↦
      let (free, aligned, word) = fresh a e in
      let given : malloc_page h.machine (flags_of h.machine) (pages_for size) ≡ ok (some a, m) =
        rw e at ran in
      let arena : Arena = record { desc = none; cnt = pages_for size; large = true } in
      (
        some (add32 a arena_size),
        set_arena (record h { machine = m }) a (some arena),
        rw given refl,
        record {
          sizes = i.sizes;
          counted = λ d x lt.
              let before = i.counted d x lt in
              elim (Bool-cases (x == a)) [
                | inl here ↦
                    let x≡ : x ≡ a = ground arith in rw (here, x≡) (rw (x≡, free) at before)
                | inr off ↦ rw off before
              ];
          headers = λ x. elim (Bool-cases (x == a)) [
            | inl here ↦ let x≡ : x ≡ a = ground arith in rw (here, x≡) (aligned, word, tt)
            | inr off ↦ rw off (i.headers x)
          ];
        },
      )
]

-- How many pages a call asks for, if it asks for any
abbrev pub pages_wanted : ℕ → ℕ
pages_wanted size = if ltb 1024 size then pages_for size else 1

-- In a heap in which each header says how many blocks of its arena are free, and not all of them
-- are, and if the pages asked for come without an arena in them or do not come, `sys_malloc`
-- returns and leaves such a heap, whatever the size.
pub sys_malloc-IsHeap :
    (h : Heap) (size : ℕ) (got : Option ℕ) (m : Machine)
    → IsHeap h
    → Supplies h (pages_wanted size) got m
    → (r : Option ℕ) × (h' : Heap) × (sys_malloc h size ≡ ok (r, h')) × IsHeap h'
unfolding sys_malloc
sys_malloc-IsHeap h size got m i supplies =
    let pl = mem_pool h.machine (flags_of h.machine) in
    elim (Bool-cases (ltb 0 size && ltb size pl.pool_size)) [
      | inr out ↦ (none, h, rw out refl, i)
      | inl inside ↦ elim (Bool-cases (ltb 1024 size)) [
        | inl large ↦
            let (r, h', ran, i') = malloc_large-IsHeap h size got m i (rw large at supplies) in
            (r, h', rw (inside, large) ran, i')
        | inr small ↦
            let (r, h', ran, i') =
              malloc_small-IsHeap h size got m i (ground arith) (rw small at supplies) in
            (r, h', rw (inside, small) ran, i')
      ]
    ]
