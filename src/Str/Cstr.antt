-- ===== src/Str/Cstr.antt =====
-- Strings in memory, and `strlen`.
use seeking_os.Prelude.{
  ℕ, zero, suc, ◌+◌, ◌^◌, ◌<◌, ◌≤◌, ◌≡◌, ◌≢◌, ◌∙◌, true, List, [], ◌∷◌, arith, Memory, ok, length,
  ◌==◌, sub32, not,
}
use seeking_os.Str.{past_nul, strlen}

-- At `p` stand the characters `xs`, none of them NUL, and a NUL behind them.
abbrev pub IsCstr : Memory → ℕ → List ℕ → Type 0
IsCstr m p [] = m p ≡ 0
IsCstr m p (x ∷ xs) = (m p ≡ x) × (x ≢ 0) × IsCstr m (p + 1) xs

-- A string that is not written to stays.
pub IsCstr-same :
    (xs : List ℕ) (m m' : Memory) (p : ℕ)
    → IsCstr m p xs
    → ((a : ℕ) → p ≤ a → a ≤ p + length xs → m' a ≡ m a)
    → IsCstr m' p xs
IsCstr-same [] m m' p s same = same p (omega arith) (omega arith) ∙ s
IsCstr-same (x ∷ xs) m m' p (e, ne, s) same = (
  same p (omega arith) (omega arith) ∙ e,
  ne,
  IsCstr-same xs m m' (p + 1) s (λ a lo hi. same a (omega arith) (omega arith)),
)

pub past_nul_lem :
    (xs : List ℕ) (n : ℕ) (m : Memory) (p : ℕ)
    → IsCstr m p xs
    → length xs < n
    → past_nul n m p ≡ ok (p + length xs + 1)
unfolding past_nul
past_nul_lem [] zero m p s lt = absurd (omega arith)
past_nul_lem [] (suc n) m p s lt = ground arith
past_nul_lem (x ∷ xs) zero m p s lt = absurd (omega arith)
past_nul_lem (x ∷ xs) (suc n) m p s lt = ground (arith, past_nul_lem xs n m (p + 1) s.2)

-- `strlen` of a string within the address space is the number of its characters.
pub strlen-length :
    (xs : List ℕ) (n : ℕ) (m : Memory) (str : ℕ)
    → IsCstr m str xs
    → 0 < str
    → str + length xs + 1 < 2 ^ 32
    → length xs < n
    → strlen n m str ≡ ok (length xs)
unfolding strlen
strlen-length xs n m str s pos fits lt =
    let real : not (str == 0) ≡ true = ground arith in
    let len : sub32 (sub32 (str + length xs + 1) str) 1 ≡ length xs = omega arith in
    rw (real, past_nul_lem xs n m str s lt, len)
