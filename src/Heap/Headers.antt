-- ===== src/Heap/Headers.antt =====
-- What the headers of the arenas say of the free lists.
use seeking_os.Prelude.{
  ℕ, suc, ◌+◌, ◌%◌, ◌^◌, ◌≤◌, ◌<◌, ◌≡◌, refl, ◌∙◌, arith, false, Option, none, some, List, ◌∷◌,
  Bool-cases, inl, inr, ◌==◌, ==-refl, if◌then◌else◌,
}
use seeking_os.Pages.{Machine}
use seeking_os.Heap.{Arena, MemBlockDesc, Heap, set_arena, set_free_list, block2arena}
use seeking_os.Heap.Sizes.{HasSizes}
use seeking_os.Heap.Counts.{hit, in_arena}

-- How many free blocks a header says there are of descriptor `d`
abbrev pub said : Option ℕ → ℕ → ℕ → ℕ
said none cnt d = 0
said (some e) cnt d = if e == d then cnt else 0

abbrev pub said_by : Option Arena → ℕ → ℕ
said_by none d = 0
said_by (some arena) d = said arena.desc arena.cnt d

-- A count is below the number of blocks of its descriptor, but for `spare`.
abbrev pub IsCount : (ℕ → MemBlockDesc) → Option ℕ → ℕ → ℕ → Type 0
IsCount descs none cnt spare = Unit {0}
IsCount descs (some d) cnt spare = (d < 7) × (cnt < (descs d).blocks_per_arena + spare)

abbrev pub IsHeader : (ℕ → MemBlockDesc) → ℕ → ℕ → Option Arena → Type 0
IsHeader descs a spare none = Unit {0}
IsHeader descs a spare (some arena) =
    (a % 4096 ≡ 0) × (a < 2 ^ 32) × IsCount descs arena.desc arena.cnt spare

-- The descriptors have their sizes, and each header says how many of its blocks are free. Of these
-- there are fewer than it has, but for `spare` of an arena.
pub record IsHeapBut (spare : ℕ → ℕ) (h : Heap) : Type 0 where
  pub sizes : HasSizes h.descs
  pub counted : (d a : ℕ) → d < 7 → in_arena a (h.descs d).free_list ≡ said_by (h.arenas a) d
  pub headers : (a : ℕ) → IsHeader h.descs a (spare a) (h.arenas a)

abbrev pub IsHeap : Heap → Type 0
IsHeap = IsHeapBut (λ a. 0)

IsCount-more :
    (descs : ℕ → MemBlockDesc) (s t : ℕ) (desc : Option ℕ) (cnt : ℕ)
    → s ≤ t
    → IsCount descs desc cnt s
    → IsCount descs desc cnt t
IsCount-more descs s t none cnt le i = tt
IsCount-more descs s t (some d) cnt le i = (i.0, omega (arith, i.1))

pub IsHeader-more :
    (descs : ℕ → MemBlockDesc) (a s t : ℕ) (o : Option Arena)
    → s ≤ t
    → IsHeader descs a s o
    → IsHeader descs a t o
IsHeader-more descs a s t none le i = tt
IsHeader-more descs a s t (some arena) le i =
    (i.0, i.1, IsCount-more descs s t arena.desc arena.cnt le i.2)

said_free : (o : Option ℕ) (cnt d n : ℕ) → said o cnt d ≡ suc n → (o ≡ some d) × (cnt ≡ suc n)
said_free none cnt d n e = absurd (omega arith)
said_free (some k) cnt d n e = elim (Bool-cases (k == d)) [
  | inl same ↦
      let k≡d : k ≡ d = ground arith in let all : cnt ≡ suc n = rw same at e in (rw k≡d refl, all)
  | inr other ↦ let nothing : 0 ≡ suc n = rw other at e in absurd (omega arith)
]

-- A header that says there is a free block of a descriptor belongs to it.
pub said_by_free :
    (o : Option Arena) (d n : ℕ)
    → said_by o d ≡ suc n
    → (arena : Arena) × (o ≡ some arena) × (arena.desc ≡ some d) × (arena.cnt ≡ suc n)
said_by_free none d n e = absurd (omega arith)
said_by_free (some arena) d n e =
    let (desc, cnt) = said_free arena.desc arena.cnt d n e in (arena, refl, desc, cnt)

-- A free list changes nothing else of the descriptors.
pub same_but_list :
    (h : Heap) (d : ℕ) (xs : List ℕ) (i : ℕ)
    → (((set_free_list h d xs).descs i).block_size ≡ (h.descs i).block_size)
      × (((set_free_list h d xs).descs i).blocks_per_arena ≡ (h.descs i).blocks_per_arena)
same_but_list h d xs i = elim (Bool-cases (i == d)) [
  | inl here ↦ let e : i ≡ d = ground arith in rw (here, e) (refl, refl)
  | inr off ↦ rw off (refl, refl)
]

pub set_free_list-HasSizes :
    (h : Heap) (d : ℕ) (xs : List ℕ) → HasSizes h.descs → HasSizes (set_free_list h d xs).descs
set_free_list-HasSizes h d xs sizes i lt =
    let (size, blocks) = same_but_list h d xs i in
    let (size', blocks') = sizes i lt in (size ∙ size', blocks ∙ blocks')

set_free_list-IsCount :
    (h : Heap) (d : ℕ) (xs : List ℕ) (desc : Option ℕ) (cnt s : ℕ)
    → IsCount h.descs desc cnt s
    → IsCount (set_free_list h d xs).descs desc cnt s
set_free_list-IsCount h d xs none cnt s i = tt
set_free_list-IsCount h d xs (some k) cnt s i =
    (i.0, omega (arith, i.1, (same_but_list h d xs k).1))

pub set_free_list-IsHeader :
    (h : Heap) (d : ℕ) (xs : List ℕ) (a s : ℕ) (o : Option Arena)
    → IsHeader h.descs a s o
    → IsHeader (set_free_list h d xs).descs a s o
set_free_list-IsHeader h d xs a s none i = tt
set_free_list-IsHeader h d xs a s (some arena) i =
    (i.0, i.1, set_free_list-IsCount h d xs arena.desc arena.cnt s i.2)

-- The header of the arena of a free block
pub header_of_free :
    (spare : ℕ → ℕ) (h : Heap) (d b : ℕ) (rest : List ℕ)
    → IsHeapBut spare h
    → d < 7
    → (h.descs d).free_list ≡ b ∷ rest
    → (arena : Arena) × (h.arenas (block2arena b) ≡ some arena)
      × (arena.desc ≡ some d)
      × (arena.cnt ≡ suc (in_arena (block2arena b) rest))
unfolding in_arena
header_of_free spare h d b rest i lt e =
    let counts = i.counted d (block2arena b) lt in
    let here : in_arena (block2arena b) (b ∷ rest) ≡ said_by (h.arenas (block2arena b)) d =
      rw e at counts in
    let one : hit b (block2arena b) ≡ 1 = rw (==-refl) refl in
    said_by_free (h.arenas (block2arena b)) d (in_arena (block2arena b) rest)
      (omega (arith, here, one))

-- One free list and the header of one of its arenas change together.
pub changed-IsHeap :
    (spare spare' : ℕ → ℕ) (h : Heap) (d a₀ : ℕ) (xs : List ℕ) (arena : Arena)
    → IsHeapBut spare h
    → d < 7
    → arena.desc ≡ some d
    → (a₀ % 4096 ≡ 0) × (a₀ < 2 ^ 32)
    → arena.cnt < (h.descs d).blocks_per_arena + spare' a₀
    → ((a : ℕ) → in_arena a xs ≡ (if a == a₀ then arena.cnt else in_arena a (h.descs d).free_list))
    → ((k : ℕ) → (k == d) ≡ false → said_by (h.arenas a₀) k ≡ 0)
    → ((a : ℕ) → (a == a₀) ≡ false → spare a ≤ spare' a)
    → IsHeapBut spare' (set_arena (set_free_list h d xs) a₀ (some arena))
changed-IsHeap spare spare' h d a₀ xs arena i lt desc place less counts old more = record {
  sizes = set_free_list-HasSizes h d xs i.sizes;
  counted = λ k a lk.
      let before = i.counted k a lk in
      elim (Bool-cases (k == d)) [
        | inl same ↦
            let e : k ≡ d = ground arith in
            elim (Bool-cases (a == a₀)) [
              | inl here ↦
                  let now : in_arena a xs ≡ arena.cnt = rw here at (counts a) in
                  rw (same, here, desc, e, ==-refl) now
              | inr off ↦
                  let now : in_arena a xs ≡ in_arena a (h.descs d).free_list =
                    rw off at (counts a) in
                  rw (same, off, e) (now ∙ rw e at before)
            ]
        | inr other ↦
            let apart : (d == k) ≡ false = ground arith in
            elim (Bool-cases (a == a₀)) [
              | inl here ↦
                  let e : a ≡ a₀ = ground arith in
                  rw (other, here, desc, apart) (before ∙ rw e (old k other))
              | inr off ↦ rw (other, off) before
            ]
      ];
  headers = λ a. elim (Bool-cases (a == a₀)) [
    | inl here ↦
        let e : a ≡ a₀ = ground arith in
        rw (here, desc, e) (place.0, place.1, (lt, omega (arith, less, (same_but_list h d xs d).1)))
    | inr off ↦ rw off (
        IsHeader-more (set_free_list h d xs).descs a (spare a) (spare' a) (h.arenas a) (more a off)
          (set_free_list-IsHeader h d xs a (spare a) (h.arenas a) (i.headers a)))
  ];
}

pub machine-IsHeap :
    (spare : ℕ → ℕ) (h : Heap) (m : Machine)
    → IsHeapBut spare h
    → IsHeapBut spare (record h { machine = m })
machine-IsHeap spare h m i = record { sizes = i.sizes; counted = i.counted; headers = i.headers }

pub place_of_header :
    (descs : ℕ → MemBlockDesc) (a s d : ℕ) (arena : Arena) (o : Option Arena)
    → o ≡ some arena
    → arena.desc ≡ some d
    → IsHeader descs a s o
    → (a % 4096 ≡ 0) × (a < 2 ^ 32) × (arena.cnt < (descs d).blocks_per_arena + s)
place_of_header descs a s d arena o at desc i =
    let header : IsHeader descs a s (some arena) = rw at at i in
    let count : IsCount descs (some d) arena.cnt s = rw desc at (header.2) in
    (header.0, header.1, count.1)

pub but-IsHeap : (spare : ℕ → ℕ) (h : Heap) → IsHeap h → IsHeapBut spare h
but-IsHeap spare h i = record {
  sizes = i.sizes;
  counted = i.counted;
  headers = λ a. IsHeader-more h.descs a 0 (spare a) (h.arenas a) (omega arith) (i.headers a);
}
