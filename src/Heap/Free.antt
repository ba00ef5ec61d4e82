-- ===== src/Heap/Free.antt =====
-- What `sys_free` does to a header and to the free lists.
use seeking_os.Prelude.{
  ℕ, ◌+◌, ◌<◌, ◌≡◌, refl, sym, subst, ◌∙◌, arith, false, none, some, List, Bool-cases, inl, inr,
  ◌==◌, ==-refl, if◌then◌else◌, Outcome, ok, assert, not, ◌>>=◌, >>=-eq-ok, ok-injective, add32,
}
use seeking_os.Thread.Queue.{elem_find, list_append}
use seeking_os.Pages.{Machine, mfree_page}
use seeking_os.Heap.{
  Arena, Heap, set_arena, set_free_list, gather_blocks, flags_of, block2arena, release_arena,
  free_small,
}
use seeking_os.Heap.Sizes.{HasSizes-fits}
use seeking_os.Heap.Blocks.{IsArena}
use seeking_os.Heap.Counts.{hit, in_arena, in_arena-append, gather_blocks_lem}
use seeking_os.Heap.Headers.{
  said_by, IsHeapBut, IsHeap, changed-IsHeap, place_of_header, set_free_list-HasSizes,
  set_free_list-IsHeader,
}

-- An arena without a free block can go.
pub gone-IsHeap :
    (spare : ℕ → ℕ) (h : Heap) (a : ℕ) (m : Machine)
    → IsHeapBut spare h
    → ((x : ℕ) → (x == a) ≡ false → spare x ≡ 0)
    → ((d : ℕ) → d < 7 → in_arena a (h.descs d).free_list ≡ 0)
    → IsHeap (set_arena (record h { machine = m }) a none)
gone-IsHeap spare h a m i others empty = record {
  sizes = i.sizes;
  counted = λ d x lt.
      let before = i.counted d x lt in
      elim (Bool-cases (x == a)) [
        | inl here ↦ let e : x ≡ a = ground arith in rw (here, e) (empty d lt)
        | inr off ↦ rw off before
      ];
  headers = λ x. elim (Bool-cases (x == a)) [
    | inl here ↦ rw here tt
    | inr off ↦ rw off (rw (others x off) at (i.headers x))
  ];
}

-- A block that comes back makes its arena's count one higher, in the header and on the list.
pub returned-IsHeap :
    (h : Heap) (b d : ℕ) (arena : Arena)
    → IsHeap h
    → d < 7
    → h.arenas (block2arena b) ≡ some arena
    → arena.desc ≡ some d
    → (spare : ℕ → ℕ) → arena.cnt + 1 < (h.descs d).blocks_per_arena + spare (block2arena b)
    → IsHeapBut spare (
        set_arena
          (set_free_list h d (list_append (h.descs d).free_list b))
          (block2arena b)
          (some (record arena { cnt = add32 arena.cnt 1 })))
returned-IsHeap h b d arena i lt at desc spare less =
    let a₀ = block2arena b in
    let (aligned, word, few_free) =
      place_of_header h.descs a₀ 0 d arena (h.arenas a₀) at desc (i.headers a₀) in
    let (sized, fits, many, few) = HasSizes-fits h.descs d i.sizes lt in
    let next : add32 arena.cnt 1 ≡ arena.cnt + 1 = ground arith in
    let free : in_arena a₀ (h.descs d).free_list ≡ arena.cnt =
      i.counted d a₀ lt ∙ rw (at, desc, ==-refl) refl in
    changed-IsHeap (λ x. 0) spare h d a₀ (list_append (h.descs d).free_list b)
      (record arena { cnt = add32 arena.cnt 1 }) i lt desc (aligned, word)
      (omega (arith, less, next))
      (λ x.
        let appended = in_arena-append x (h.descs d).free_list b in
        elim (Bool-cases (x == a₀)) [
          | inl here ↦
              let e : x ≡ a₀ = ground arith in
              let one : hit b a₀ ≡ 1 = rw (==-refl) refl in
              rw (here, e)
                (omega (arith, in_arena-append a₀ (h.descs d).free_list b, one, free, next))
          | inr off ↦
              let not_hit : hit b x ≡ 0 = ground arith in rw off (omega (arith, appended, not_hit))
        ])
      (λ k other. let apart : (d == k) ≡ false = ground arith in rw (at, desc, apart) refl)
      (λ x off. omega arith)

pub release_arena_lem :
    (h h' : Heap) (a n : ℕ)
    → release_arena h a n ≡ ok h'
    → (m : Machine) × (h' ≡ set_arena (record h { machine = m }) a none)
unfolding release_arena
release_arena_lem h h' a n ran =
    let (m, freed, made) =
      >>=-eq-ok (mfree_page h.machine (flags_of h.machine) a n)
        (λ m. ok (set_arena (record h { machine = m }) a none)) ran in
    (m, sym (ok-injective made))

-- An arena whose blocks have been gathered can go.
emptied-IsHeap :
    (spare : ℕ → ℕ) (h : Heap) (d a : ℕ) (xs : List ℕ) (m : Machine)
    → IsHeapBut spare h
    → ((x : ℕ) → (x == a) ≡ false → spare x ≡ 0)
    → ((x : ℕ) → in_arena x xs ≡ (if x == a then 0 else in_arena x (h.descs d).free_list))
    → ((k : ℕ) → (k == d) ≡ false → said_by (h.arenas a) k ≡ 0)
    → IsHeap (set_arena (record (set_free_list h d xs) { machine = m }) a none)
emptied-IsHeap spare h d a xs m i others counts old = record {
  sizes = set_free_list-HasSizes h d xs i.sizes;
  counted = λ k x lt.
      let before = i.counted k x lt in
      elim (Bool-cases (k == d)) [
        | inl same ↦
            let e : k ≡ d = ground arith in
            elim (Bool-cases (x == a)) [
              | inl here ↦
                  let nothing : in_arena x xs ≡ 0 = rw here at (counts x) in rw (same, here) nothing
              | inr off ↦
                  let now : in_arena x xs ≡ in_arena x (h.descs d).free_list =
                    rw off at (counts x) in
                  rw (same, off, e) (now ∙ rw e at before)
            ]
        | inr other ↦ elim (Bool-cases (x == a)) [
          | inl here ↦
              let e : x ≡ a = ground arith in rw (other, here, e) (rw e at before ∙ old k other)
          | inr off ↦ rw (other, off) before
        ]
      ];
  headers = λ x. elim (Bool-cases (x == a)) [
    | inl here ↦ rw here tt
    | inr off ↦
        rw off (set_free_list-IsHeader h d xs x 0 (h.arenas x) (rw (others x off) at (i.headers x)))
  ];
}

-- The lists of one descriptor while an arena's last block comes back
module _ (h : Heap) (b d : ℕ) (arena : Arena) where
  abbrev pub with_block : List ℕ
  with_block = list_append (h.descs d).free_list b

  abbrev pub one_more : Heap
  one_more =
      set_arena (set_free_list h d with_block) (block2arena b)
        (some (record arena { cnt = add32 arena.cnt 1 }))

  -- All blocks have come back, and are gathered.
  last_free-IsHeap :
      IsHeap h
      → d < 7
      → h.arenas (block2arena b) ≡ some arena
      → arena.desc ≡ some d
      → arena.cnt + 1 ≡ (h.descs d).blocks_per_arena
      → (ys : List ℕ)
      → gather_blocks
          (h.descs d).blocks_per_arena
          (h.descs d).block_size
          (block2arena b)
          0
          with_block
        ≡ ok ys
      → (m : Machine)
      → IsHeap
          (set_arena (record (set_free_list one_more d ys) { machine = m }) (block2arena b) none)
  last_free-IsHeap i lt at desc last ys gathered m =
      let a₀ = block2arena b in
      let n = (h.descs d).blocks_per_arena in
      let (aligned, word, less) =
        place_of_header h.descs a₀ 0 d arena (h.arenas a₀) at desc (i.headers a₀) in
      let (sized, fits, many, few) = HasSizes-fits h.descs d i.sizes lt in
      let spare : ℕ → ℕ = λ x. if x == a₀ then 1 else 0 in
      let one : spare a₀ ≡ 1 = rw (==-refl) refl in
      let i₁ = returned-IsHeap h b d arena i lt at desc spare (omega (arith, one)) in
      let place : IsArena (h.descs d).block_size n a₀ = record {
        aligned = aligned;
        word = word;
        sized = sized;
        fits = fits;
      } in
      let counts =
        gather_blocks_lem n (h.descs d).block_size n a₀ 0 with_block ys place (omega arith)
          gathered in
      let free : in_arena a₀ (h.descs d).free_list ≡ arena.cnt =
        i.counted d a₀ lt ∙ rw (at, desc, ==-refl) refl in
      let hit_ : hit b a₀ ≡ 1 = rw (==-refl) refl in
      let all = in_arena-append a₀ (h.descs d).free_list b in
      emptied-IsHeap spare one_more d a₀ ys m i₁ (λ x off. rw off refl)
        (λ x. elim (Bool-cases (x == a₀)) [
          | inl here ↦
              let e : x ≡ a₀ = ground arith in
              let took : in_arena a₀ ys + n ≡ in_arena a₀ with_block =
                rw (e, ==-refl) at (counts x) in
              rw (here, e) (omega (arith, took, all, free, hit_, last))
          | inr off ↦
              let took : in_arena x ys + 0 ≡ in_arena x with_block = rw off at (counts x) in
              rw (off, ==-refl) (omega (arith, took))
        ])
        (λ k other. let apart : (d == k) ≡ false = ground arith in rw (==-refl, desc, apart) refl)

  pub free_small-IsHeap :
      (h' : Heap)
      → IsHeap h
      → d < 7
      → h.arenas (block2arena b) ≡ some arena
      → arena.desc ≡ some d
      → free_small h b (block2arena b) arena d ≡ ok h'
      → IsHeap h'
  unfolding free_small
  free_small-IsHeap h' i lt at desc ran =
      let a₀ = block2arena b in
      let (_, checked, ran') = >>=-eq-ok (assert (not (elem_find (h.descs d).free_list b))) _ ran in
      let (aligned, word, less) =
        place_of_header h.descs a₀ 0 d arena (h.arenas a₀) at desc (i.headers a₀) in
      let (sized, fits, many, few) = HasSizes-fits h.descs d i.sizes lt in
      let n = (h.descs d).blocks_per_arena in
      let gather = gather_blocks n (h.descs d).block_size a₀ 0 with_block in
      elim (Bool-cases (add32 arena.cnt 1 == n)) [
        | inr left ↦
            let next : arena.cnt + 1 < n + 0 = ground arith in
            let done : ok one_more ≡ ok h' = rw (left, free_small) at ran' in
            subst IsHeap (ok-injective done)
              (returned-IsHeap h b d arena i lt at desc (λ x. 0) next)
        | inl last ↦
            let all : arena.cnt + 1 ≡ n = ground arith in
            let release : List ℕ → Outcome Heap =
              λ ys. release_arena (set_free_list one_more d ys) a₀ 1 in
            let rest : (gather >>= release) ≡ ok h' = rw (last, free_small) at ran' in
            let (ys, gathered, released) = >>=-eq-ok gather release rest in
            let (m, made) = release_arena_lem (set_free_list one_more d ys) h' a₀ 1 released in
            subst IsHeap (sym made) (last_free-IsHeap i lt at desc all ys gathered m)
      ]
