-- ===== src/Heap/Blocks.antt =====
-- The places of the blocks of an arena.
use seeking_os.Prelude.{ℕ, ◌+◌, ◌-◌, ◌*◌, ◌/◌, ◌%◌, ◌^◌, ◌≤◌, ◌<◌, ◌≡◌, arith, and_shift, and_ones}
use native.Mathlib.Nat.{mul-le-mul_right}
use seeking_os.Heap.{arena2block, block2arena}

page_of : (b : ℕ) → b < 2 ^ 32 → block2arena b ≡ b / 4096 * 4096
unfolding block2arena
page_of b lt =
    let mask = and_shift 12 b (2 ^ 20 - 1) in
    let ones = and_ones 20 (b / 2 ^ 12) in omega (arith, mask, ones)

-- The blocks that fit in the page behind the header
pub record IsArena (block_size blocks_per_arena a : ℕ) : Type 0 where
  pub aligned : a % 4096 ≡ 0
  pub word : a < 2 ^ 32
  pub sized : 0 < block_size
  pub fits : 12 + blocks_per_arena * block_size ≤ 4096

times_below : (i n s : ℕ) → i < n → i * s + s ≤ n * s
times_below i n s lt = omega (arith, mul-le-mul_right s lt)

pub arena2block_lem :
    (block_size n a idx : ℕ)
    → IsArena block_size n a
    → idx < n
    → (arena2block block_size a idx ≡ a + 12 + idx * block_size)
      × (a + 12 + idx * block_size + block_size ≤ a + 4096)
unfolding arena2block
arena2block_lem block_size n a idx arena lt =
    let top = times_below idx n block_size lt in
    let fits = arena.fits in let word = arena.word in let aligned = arena.aligned in ground arith

pub block2arena-arena2block :
    (block_size n a idx : ℕ)
    → IsArena block_size n a
    → idx < n
    → block2arena (arena2block block_size a idx) ≡ a
block2arena-arena2block block_size n a idx arena lt =
    let (at, inside) = arena2block_lem block_size n a idx arena lt in
    let sized = arena.sized in
    let word = arena.word in
    let aligned = arena.aligned in
    let page = page_of (arena2block block_size a idx) (omega arith) in omega arith
