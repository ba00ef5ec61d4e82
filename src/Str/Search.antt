-- ===== src/Str/Search.antt =====
-- `strchr`, `strrchr` and `strchrs`.
use seeking_os.Prelude.{
  ℕ, zero, suc, ◌+◌, ◌<◌, ◌≤◌, ◌≡◌, subst, inl, inr, true, false, Option, none, some, List, [], ◌∷◌,
  arith, Memory, ok, length, ◌==◌, Bool-cases, not, if◌then◌else◌,
}
use seeking_os.Str.{char_eq, find_char, strchr, find_last, strrchr}
use seeking_os.Str.Cstr.{IsCstr}

-- The first place among the `n` addresses from `p` on that holds the character, if one does.
abbrev pub IsFirstChar : Memory → ℕ → ℕ → ℕ → Option ℕ → Type 0
IsFirstChar m ch p n none = (a : ℕ) → p ≤ a → a < p + n → char_eq (m a) ch ≡ false
IsFirstChar m ch p n (some s) =
    (p ≤ s)
    × (s < p + n)
    × (char_eq (m s) ch ≡ true)
    × ((a : ℕ) → p ≤ a → a < s → char_eq (m a) ch ≡ false)

-- The last place that holds it, or `last` if none does.
abbrev pub IsLastChar : Memory → ℕ → ℕ → ℕ → Option ℕ → Type 0
IsLastChar m ch p n none = (a : ℕ) → p ≤ a → a < p + n → char_eq (m a) ch ≡ false
IsLastChar m ch p n (some s) =
    (p ≤ s)
    × (s < p + n)
    × (char_eq (m s) ch ≡ true)
    × ((a : ℕ) → s < a → a < p + n → char_eq (m a) ch ≡ false)

later_first :
    (m : Memory) (ch p n : ℕ) (r : Option ℕ)
    → char_eq (m p) ch ≡ false
    → IsFirstChar m ch (p + 1) n r
    → IsFirstChar m ch p (suc n) r
later_first m ch p n none miss h = λ a lo hi. elim (Bool-cases (a == p)) [
  | inl here ↦ ground arith
  | inr later ↦ h a (ground arith) (omega arith)
]
later_first m ch p n (some s) miss (lo, hi, hit, first) = (
  omega arith,
  omega arith,
  hit,
  λ a la lt. elim (Bool-cases (a == p)) [
    | inl here ↦ ground arith
    | inr later ↦ first a (ground arith) lt
  ],
)

find_char_lem :
    (xs : List ℕ) (n : ℕ) (m : Memory) (p ch : ℕ)
    → IsCstr m p xs
    → length xs < n
    → (r : Option ℕ) × (find_char n m p ch ≡ ok r) × IsFirstChar m ch p (length xs) r
unfolding find_char
find_char_lem xs zero m p ch s lt = absurd (omega arith)
find_char_lem [] (suc n) m p ch s lt = (none, rw s, λ a lo hi. absurd (omega arith))
find_char_lem (x ∷ xs) (suc n) m p ch (e, ne, s) lt =
    let more : (m p == 0) ≡ false = ground arith in
    elim (Bool-cases (char_eq (m p) ch)) [
      | inl hit ↦
          (some p, rw (more, hit), (omega arith, omega arith, hit, λ a lo hi. absurd (omega arith)))
      | inr miss ↦
          let (r, ran, first) = find_char_lem xs n m (p + 1) ch s (omega arith) in
          (r, rw (more, miss) ran, later_first m ch p (length xs) r miss first)
    ]

-- `strchr` returns the first place of the string that holds the character, and NULL if there is none.
-- No place holds a character of 128 or more, for a `char` is signed.
pub strchr_lem :
    (xs : List ℕ) (n : ℕ) (m : Memory) (str ch : ℕ)
    → IsCstr m str xs
    → 0 < str
    → length xs < n
    → (r : Option ℕ) × (strchr n m str ch ≡ ok r) × IsFirstChar m ch str (length xs) r
unfolding strchr
strchr_lem xs n m str ch s pos lt =
    let (r, ran, first) = find_char_lem xs n m str ch s lt in
    let real : not (str == 0) ≡ true = ground arith in (r, rw real ran, first)

last_kept :
    (m : Memory) (ch start k p : ℕ) (last : Option ℕ)
    → p ≡ start + k
    → IsLastChar m ch start k last
    → char_eq (m p) ch ≡ false
    → IsLastChar m ch start (k + 1) last
last_kept m ch start k p none e h miss = λ a lo hi. elim (Bool-cases (a == p)) [
  | inl here ↦ ground arith
  | inr other ↦ h a lo (ground arith)
]
last_kept m ch start k p (some s) e (lo, hi, hit, last) miss = (
  lo,
  omega arith,
  hit,
  λ a la lt. elim (Bool-cases (a == p)) [
    | inl here ↦ ground arith
    | inr other ↦ last a la (ground arith)
  ],
)

last_next :
    (m : Memory) (ch start k p : ℕ) (last : Option ℕ)
    → p ≡ start + k
    → IsLastChar m ch start k last
    → IsLastChar m ch start (k + 1) (if char_eq (m p) ch then some p else last)
last_next m ch start k p last e h = elim (Bool-cases (char_eq (m p) ch)) [
  | inl hit ↦ rw hit (omega arith, omega arith, hit, λ a lo hi. absurd (omega arith))
  | inr miss ↦ rw miss (last_kept m ch start k p last e h miss)
]

find_last_lem :
    (xs : List ℕ) (n : ℕ) (m : Memory) (start k p ch total : ℕ) (last : Option ℕ)
    → IsCstr m p xs
    → length xs < n
    → p ≡ start + k
    → total ≡ k + length xs
    → IsLastChar m ch start k last
    → (r : Option ℕ) × (find_last n m p ch last ≡ ok r) × IsLastChar m ch start total r
unfolding find_last
find_last_lem xs zero m start k p ch total last s lt e sum h = absurd (omega arith)
find_last_lem [] (suc n) m start k p ch total last s lt e sum h =
    let all : k ≡ total = omega arith in
    (last, rw s, subst (λ t. IsLastChar m ch start t last) all h)
find_last_lem (x ∷ xs) (suc n) m start k p ch total last (here, ne, s) lt e sum h =
    let more : (m p == 0) ≡ false = ground arith in
    let (r, ran, found) =
      find_last_lem xs n m start (k + 1) (p + 1) ch total
        (if char_eq (m p) ch then some p else last) s (omega arith) (omega arith) (omega arith)
        (last_next m ch start k p last e h) in
    (r, rw more ran, found)

-- `strrchr` returns the last place of the string that holds the character, and NULL if there is none.
pub strrchr_lem :
    (xs : List ℕ) (n : ℕ) (m : Memory) (str ch : ℕ)
    → IsCstr m str xs
    → 0 < str
    → length xs < n
    → (r : Option ℕ) × (strrchr n m str ch ≡ ok r) × IsLastChar m ch str (length xs) r
unfolding strrchr
strrchr_lem xs n m str ch s pos lt =
    let (r, ran, found) =
      find_last_lem xs n m str 0 str ch (length xs) none s lt (omega arith) (omega arith)
        (λ a lo hi. absurd (omega arith)) in
    let real : not (str == 0) ≡ true = ground arith in (r, rw real ran, found)
