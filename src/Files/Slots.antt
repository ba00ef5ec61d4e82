-- ===== src/Files/Slots.antt =====
-- The first free entry of the file table and of the descriptor table.
use seeking_os.Prelude.{
  ℕ, zero, suc, ◌+◌, ◌≤◌, ◌<◌, ◌≡◌, inl, inr, Bool, true, false, Option, none, some, arith, ◌==◌,
  Bool-cases,
}
use seeking_os.Files.{File, FileSystem, is_none, free_slot, get_free_slot_in_global, free_fd}

-- The first of the entries from `p` to `p + n` that is free, or `none` if none is.
abbrev pub IsFirstFree : (ℕ → Bool) → ℕ → ℕ → Option ℕ → Type 0
IsFirstFree free p n none = (i : ℕ) → p ≤ i → i < p + n → free i ≡ false
IsFirstFree free p n (some s) =
    (p ≤ s) × (s < p + n) × (free s ≡ true) × ((i : ℕ) → p ≤ i → i < s → free i ≡ false)

later :
    (free : ℕ → Bool) (p n : ℕ) (r : Option ℕ)
    → free p ≡ false
    → IsFirstFree free (p + 1) n r
    → IsFirstFree free p (suc n) r
later free p n none used h = λ i lo hi. elim (Bool-cases (i == p)) [
  | inl here ↦ ground arith
  | inr off ↦ h i (ground arith) (omega arith)
]
later free p n (some s) used (lo, hi, is, before) = (
  omega arith,
  omega arith,
  is,
  λ i li lt. elim (Bool-cases (i == p)) [
    | inl here ↦ ground arith
    | inr off ↦ before i (ground arith) lt
  ],
)

free_slot-IsFirstFree :
    (n : ℕ) (table : ℕ → File) (p : ℕ)
    → IsFirstFree (λ i. is_none (table i).fd_inode) p n (free_slot n table p)
unfolding free_slot
free_slot-IsFirstFree zero table p = λ i lo hi. absurd (omega arith)
free_slot-IsFirstFree (suc n) table p = elim (Bool-cases (is_none (table p).fd_inode)) [
  | inl is ↦ rw is (omega arith, omega arith, is, λ i lo hi. absurd (omega arith))
  | inr used ↦ rw used (
      later (λ i. is_none (table i).fd_inode) p n (free_slot n table (p + 1)) used
        (free_slot-IsFirstFree n table (p + 1)))
]

free_fd-IsFirstFree :
    (n : ℕ) (table : ℕ → Option ℕ) (p : ℕ)
    → IsFirstFree (λ i. is_none (table i)) p n (free_fd n table p)
unfolding free_fd
free_fd-IsFirstFree zero table p = λ i lo hi. absurd (omega arith)
free_fd-IsFirstFree (suc n) table p = elim (Bool-cases (is_none (table p))) [
  | inl is ↦ rw is (omega arith, omega arith, is, λ i lo hi. absurd (omega arith))
  | inr used ↦ rw used (
      later (λ i. is_none (table i)) p n (free_fd n table (p + 1)) used
        (free_fd-IsFirstFree n table (p + 1)))
]

-- `get_free_slot_in_global` finds the first free slot behind the three standard ones, and -1
-- exactly if there is none.
pub get_free_slot-IsFirstFree :
    (s : FileSystem)
    → IsFirstFree (λ i. is_none (s.file_table i).fd_inode) 3 29 (get_free_slot_in_global s)
unfolding get_free_slot_in_global
get_free_slot-IsFirstFree s = free_slot-IsFirstFree 29 s.file_table 3
