-- ===== src/Directory/First.antt =====
-- All the blocks in their order, and `search_dir_entry`.
use seeking_os.Prelude.{
  ℕ, zero, suc, ◌+◌, ◌≤◌, ◌<◌, ◌≡◌, refl, ◌∙◌, ◌≢◌, ◌⊎◌, inl, inr, Bool-cases, List, arith, Memory,
  IsBytes, Option, Outcome, length, ◌==◌,
}
use seeking_os.Str.{fill}
use seeking_os.Str.Cstr.{IsCstr, IsCstr-same}
use seeking_os.Inode.{read_sectors, sector_size}
use seeking_os.Directory.{search_blocks}
use seeking_os.Directory.Sector.{search_sector_lem}
use seeking_os.Directory.Search.{
  Named, SameBut, read_in, read_out, read-IsBytes, clear-IsBytes, clear_out,
}
use seeking_os.Directory.Blocks.{
  Found, Missing, free_block, block_with, block_without, names_in_memory,
}

-- A block without the name before the others
one_more :
    (disk : Memory) (all_blocks : ℕ → ℕ) (buf count : ℕ) (m m₁ : Memory) (names : ℕ → ℕ → List ℕ)
    (ys : List ℕ) (from end : ℕ) (result result₁ : Outcome (Option ℕ × Memory))
    → ((i : ℕ) → all_blocks from ≢ 0 → i < count → names from i ≢ ys)
    → from < end
    → SameBut buf m m₁
    → result ≡ result₁
    → Found disk all_blocks buf count m₁ names ys (from + 1) end result₁
      ⊎ Missing all_blocks buf count m₁ names ys (from + 1) end result₁
    → Found disk all_blocks buf count m names ys from end result
      ⊎ Missing all_blocks buf count m names ys from end result
one_more disk all_blocks buf count m m₁ names ys from end result result₁ not_here lt before step
      (inl (k, e, m', lo, hi, (used, inside, first, nowhere), ran, held, same)) =
    inl (
      k,
      e,
      m',
      omega arith,
      hi,
      (
        used,
        inside,
        first,
        λ j i le lt' some_ few. elim (Bool-cases (j == from)) [
          | inl here ↦
              let j≡ : j ≡ from = ground arith in
              let some' : all_blocks from ≢ 0 = rw (← j≡) some_ in rw j≡ (not_here i some' few)
          | inr off ↦ nowhere j i (ground arith) lt' some_ few
        ],
      ),
      step ∙ ran,
      held,
      λ a out. same a out ∙ before a out,
    )
one_more disk all_blocks buf count m m₁ names ys from end result result₁ not_here lt before step
      (inr (m', ran, nowhere, same)) =
    inr (
      m',
      step ∙ ran,
      λ j i le lt' some_ few. elim (Bool-cases (j == from)) [
        | inl here ↦
            let j≡ : j ≡ from = ground arith in
            let some' : all_blocks from ≢ 0 = rw (← j≡) some_ in rw j≡ (not_here i some' few)
        | inr off ↦ nowhere j i (ground arith) lt' some_ few
      ],
      λ a out. same a out ∙ before a out,
    )

pub search_blocks_lem :
    (left n : ℕ) (disk : Memory) (all_blocks : ℕ → ℕ) (buf count : ℕ) (m : Memory) (name from : ℕ)
    (names : ℕ → ℕ → List ℕ) (ys : List ℕ)
    → Named disk all_blocks count n names
    → IsBytes disk
    → IsBytes m
    → IsCstr m name ys
    → 0 < name
    → 0 < buf
    → (name + length ys < buf) ⊎ (buf + sector_size ≤ name)
    → from + left ≤ 140
    → Found disk all_blocks buf count m names ys from
        (from + left)
        (search_blocks left n disk all_blocks buf count m name from)
      ⊎ Missing all_blocks buf count m names ys from
          (from + left)
          (search_blocks left n disk all_blocks buf count m name from)
unfolding search_blocks
search_blocks_lem zero n disk all_blocks buf count m name from names ys named bd bm s real real'
      apart few =
    inr (m, refl, λ j i le lt. absurd (omega arith), λ a out. refl)
search_blocks_lem (suc left) n disk all_blocks buf count m name from names ys named bd bm s real
      real' apart few =
    let end : from + 1 + left ≡ from + suc left = omega arith in
    elim (Bool-cases (all_blocks from == 0)) [
      | inl free ↦
          let rest =
            search_blocks_lem left n disk all_blocks buf count m name (from + 1) names ys named bd
              bm s real real' apart (omega arith) in
          one_more disk all_blocks buf count m m names ys from (from + suc left) _ _
            (λ i some_. ground arith) (omega arith) (λ a out. refl)
            (free_block left n disk all_blocks buf count m name from free) (rw end at rest)
      | inr used ↦
          let some_ : all_blocks from ≢ 0 = ground arith in
          let m₁ : Memory = read_sectors disk (all_blocks from) m buf 1 in
          let bytes = read-IsBytes disk (all_blocks from) m buf bd bm in
          let s₁ : IsCstr m₁ name ys =
            IsCstr-same ys m m₁ name s
              (λ a lo hi. read_out disk (all_blocks from) m buf a (ground arith)) in
          elim (search_sector_lem count n m₁ buf buf name 0 (names from) ys bytes s₁ real real'
            (omega arith)
            (λ e lo hi.
              names_in_memory disk all_blocks count n names m buf from e named (omega arith) some_
                (omega arith))
            (λ e lo hi. named.short from e (omega arith))) [
              | inl (e, lo, hi, ran, first) ↦ inl (
                from,
                e,
                m₁,
                omega arith,
                omega arith,
                (some_, omega arith, first, λ j i le lt. absurd (omega arith)),
                block_with left n disk all_blocks buf count m name from _ used ran,
                λ i lt. read_in disk (all_blocks from) m buf i lt,
                read_out disk (all_blocks from) m buf,
              )
              | inr (ran, nowhere) ↦
                  let m₂ : Memory = fill m₁ buf 0 sector_size in
                  let bytes₂ = clear-IsBytes m₁ buf bytes in
                  let s₂ : IsCstr m₂ name ys =
                    IsCstr-same ys m₁ m₂ name s₁ (λ a lo hi. clear_out m₁ buf a (ground arith)) in
                  let rest =
                    search_blocks_lem left n disk all_blocks buf count m₂ name (from + 1) names ys
                      named bd bytes₂ s₂ real real' apart (omega arith) in
                  one_more disk all_blocks buf count m m₂ names ys from (from + suc left) _ _
                    (λ i used_ few'. nowhere i (omega arith) (omega arith)) (omega arith)
                    (λ a out. clear_out m₁ buf a out ∙ read_out disk (all_blocks from) m buf a out)
                    (block_without left n disk all_blocks buf count m name from used ran)
                    (rw end at rest)
            ]
    ]
