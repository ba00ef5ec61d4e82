-- ===== src/Heap/Counts.antt =====
-- How many blocks of an arena are on a free list.
use seeking_os.Prelude.{
  ℕ, zero, suc, ◌+◌, ◌≤◌, ◌<◌, ◌≡◌, refl, arith, true, false, List, [], ◌∷◌, Bool-cases, inl, inr,
  ◌==◌, ==-refl, if◌then◌else◌, ok, panic, assert, ok-injective,
}
use native.Mathlib.Nat.{mul-le-mul_right}
use seeking_os.Thread.Queue.{elem_find, list_append, find-append}
use seeking_os.Heap.{arena2block, block2arena, split_arena, gather_blocks, remove_block}
use seeking_os.Heap.Blocks.{IsArena, arena2block_lem, block2arena-arena2block}

abbrev pub hit : ℕ → ℕ → ℕ
hit b a = if block2arena b == a then 1 else 0

-- The number of the blocks in `xs` that lie in the page of `a`
unfoldable pub in_arena : ℕ → List ℕ → ℕ
in_arena a [] = 0
in_arena a (b ∷ xs) = hit b a + in_arena a xs

pub in_arena-append :
    (a : ℕ) (xs : List ℕ) (b : ℕ) → in_arena a (list_append xs b) ≡ in_arena a xs + hit b a
unfolding in_arena
in_arena-append a [] b = omega arith
in_arena-append a (x ∷ xs) b = omega (arith, in_arena-append a xs b)

pub in_arena-remove :
    (a : ℕ) (xs : List ℕ) (b : ℕ)
    → elem_find xs b ≡ true
    → in_arena a (remove_block xs b) + hit b a ≡ in_arena a xs
unfolding in_arena
in_arena-remove a [] b found = cc
in_arena-remove a (x ∷ xs) b found = elim (Bool-cases (x == b)) [
  | inl here ↦ let e : x ≡ b = ground arith in rw (here, e) (omega arith)
  | inr off ↦
      let rest : elem_find xs b ≡ true = rw off at found in
      rw off (omega (arith, in_arena-remove a xs b rest))
]

-- A list without a block of an arena does not have this one.
pub absent :
    (a : ℕ) (xs : List ℕ) (b : ℕ) → in_arena a xs ≡ 0 → block2arena b ≡ a → elem_find xs b ≡ false
unfolding in_arena
absent a [] b none_ at = refl
absent a (x ∷ xs) b none_ at = elim (Bool-cases (x == b)) [
  | inl here ↦
      let e : x ≡ b = ground arith in
      let one : hit x a ≡ 1 = rw (e, at, ==-refl) refl in absurd (omega arith)
  | inr off ↦ rw off (absent a xs b (omega arith) at)
]

different_blocks :
    (block_size n a i j : ℕ)
    → IsArena block_size n a
    → i < j
    → j < n
    → arena2block block_size a i < arena2block block_size a j
different_blocks block_size n a i j arena lt inside =
    let (first, _) = arena2block_lem block_size n a i arena (omega arith) in
    let (second, _) = arena2block_lem block_size n a j arena inside in
    let sized = arena.sized in omega (arith, mul-le-mul_right block_size lt)

-- Cutting an arena succeeds if none of its blocks is on the list, and puts all of them there.
pub split_arena_lem :
    (k block_size n a idx : ℕ) (xs : List ℕ)
    → IsArena block_size n a
    → idx + k ≡ n
    → ((j : ℕ) → idx ≤ j → j < n → elem_find xs (arena2block block_size a j) ≡ false)
    → (ys : List ℕ) × (split_arena k block_size a idx xs ≡ ok ys)
      × ((x : ℕ) → in_arena x ys ≡ in_arena x xs + (if x == a then k else 0))
unfolding split_arena
split_arena_lem zero block_size n a idx xs arena e new = (xs, refl, λ x. ground arith)
split_arena_lem (suc k) block_size n a idx xs arena e new =
    let b = arena2block block_size a idx in
    let absent_ = new idx (omega arith) (omega arith) in
    let place = block2arena-arena2block block_size n a idx arena (omega arith) in
    let (ys, ran, counts) =
      split_arena_lem k block_size n a (idx + 1) (list_append xs b) arena (omega arith)
        (λ j from to.
          let old = new j (omega arith) to in
          let other = different_blocks block_size n a idx j arena (omega arith) to in
          rw (find-append, old) (ground (arith, other))) in
    (ys, rw (absent_, assert) ran, λ x. rw counts (ground (arith, in_arena-append x xs b, place)))

-- If all blocks of an arena are gathered, they are on the list no more.
pub gather_blocks_lem :
    (k block_size n a idx : ℕ) (xs ys : List ℕ)
    → IsArena block_size n a
    → idx + k ≡ n
    → gather_blocks k block_size a idx xs ≡ ok ys
    → (x : ℕ) → in_arena x ys + (if x == a then k else 0) ≡ in_arena x xs
unfolding gather_blocks
gather_blocks_lem zero block_size n a idx xs ys arena e ran x = rw (ok-injective ran) (ground arith)
gather_blocks_lem (suc k) block_size n a idx xs ys arena e ran x =
    let b = arena2block block_size a idx in
    let place = block2arena-arena2block block_size n a idx arena (omega arith) in
    elim (Bool-cases (elem_find xs b)) [
      | inl found ↦
          let rest : gather_blocks k block_size a (idx + 1) (remove_block xs b) ≡ ok ys =
            rw found at ran in
          let counts =
            gather_blocks_lem k block_size n a (idx + 1) (remove_block xs b) ys arena (omega arith)
              rest x in
          ground (arith, counts, in_arena-remove x xs b found, place)
      | inr lost ↦ let stuck : panic ≡ ok ys = rw lost at ran in cc
    ]
