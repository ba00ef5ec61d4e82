-- ===== src/Shell/Words.antt =====
-- What the words of a line are, and how the inner loops of `cmd_parse` find them.
use seeking_os.Prelude.{
  ℕ, zero, suc, ◌+◌, ◌≤◌, ◌<◌, ◌≡◌, refl, ap, ◌≢◌, ◌⊎◌, inl, inr, true, false, List, [], ◌∷◌, ◌++◌,
  arith, Memory, store, ok, length, length-append, All, ◌==◌,
}
use seeking_os.Str.Cstr.{IsCstr}
use seeking_os.Shell.{skip_token, find_end}

abbrev pub IsWord : ℕ → List ℕ → Type 0
IsWord token w = (0 < length w) × All (λ c. c ≢ token) w

-- The line `xs` has the words `ws` between its tokens.
pub data Words (token : ℕ) : List ℕ → List (List ℕ) → Type 0 where
  nothing : Words token [] []
  between : {xs : List ℕ} {ws : List (List ℕ)} → Words token xs ws → Words token (token ∷ xs) ws
  last : {w : List ℕ} → IsWord token w → Words token w (w ∷ [])
  word :
      {w xs : List ℕ} {ws : List (List ℕ)}
      → IsWord token w
      → Words token xs ws
      → Words token (w ++ (token ∷ xs)) (w ∷ ws)

-- A line that does not start with a token
pub data Start (token : ℕ) : List ℕ → List (List ℕ) → Type 0 where
  at_end : Start token [] []
  at_last : {w : List ℕ} → IsWord token w → Start token w (w ∷ [])
  at_word :
      {w xs : List ℕ} {ws : List (List ℕ)}
      → IsWord token w
      → Words token xs ws
      → Start token (w ++ (token ∷ xs)) (w ∷ ws)

pub empty_line :
    {token : ℕ} {xs : List ℕ} {ws : List (List ℕ)} → Words token xs ws → length xs ≡ 0 → ws ≡ []
empty_line nothing e = refl
empty_line (between rest) e = absurd (omega arith)
empty_line (last (some_, plain)) e = absurd (omega arith)
empty_line (word {w = w} {xs = xs} (some_, plain) rest) e =
    absurd (omega (arith, length-append w (_ ∷ xs)))

pub head_char :
    (m : Memory) (p : ℕ) (xs : List ℕ) → IsCstr m p xs → 0 < length xs → (m p == 0) ≡ false
head_char m p [] s lt = absurd (omega arith)
head_char m p (x ∷ xs) s lt = ground (arith, s.0, s.1)

not_token :
    (m : Memory) (token p : ℕ) (w tail : List ℕ)
    → IsCstr m p (w ++ tail)
    → IsWord token w
    → (m p == token) ≡ false
not_token m token p [] tail s (some_, plain) = absurd (omega arith)
not_token m token p (x ∷ w) tail s (some_, plain) = ground (arith, s.0, plain.0)

pub append-nil : (w : List ℕ) → w ++ [] ≡ w
append-nil [] = refl
append-nil (x ∷ w) = ap (λ r. x ∷ r) (append-nil w)

-- The first inner loop stops at the next word or at the end.
pub skip_token_lem :
    {token : ℕ} {xs : List ℕ} {ws : List (List ℕ)} (n : ℕ) (m : Memory) (p : ℕ)
    → Words token xs ws
    → token ≢ 0
    → IsCstr m p xs
    → length xs < n
    → (q : ℕ) × (ys : List ℕ) × (skip_token n m token p ≡ ok q)
      × IsCstr m q ys
      × Start token ys ws
      × (p ≤ q)
      × (q + length ys ≡ p + length xs)
unfolding skip_token
skip_token_lem zero m p words real s lt = absurd (omega arith)
skip_token_lem {token = token} (suc n) m p nothing real s lt =
    let stop : (m p == token) ≡ false = ground (arith, s, real) in
    (p, [], rw stop refl, s, at_end, omega arith, refl)
skip_token_lem {token = token} (suc n) m p (between {xs = xs} rest) real s lt =
    let (q, ys, ran, s', start, le, len) = skip_token_lem n m (p + 1) rest real s.2 (omega arith) in
    let go : (m p == token) ≡ true = ground (arith, s.0) in
    (q, ys, rw go ran, s', start, omega arith, omega arith)
skip_token_lem {token = token} (suc n) m p (last {w = w} word_) real s lt =
    let stop = not_token m token p w [] (rw (append-nil w) s) word_ in
    (p, w, rw stop refl, s, at_last word_, omega arith, refl)
skip_token_lem {token = token} (suc n) m p (word {w = w} {xs = xs} word_ rest) real s lt =
    let stop = not_token m token p w (token ∷ xs) s word_ in
    (p, w ++ (token ∷ xs), rw stop refl, s, at_word word_ rest, omega arith, refl)

-- The second stops behind the word.
pub find_end_lem :
    (w tail : List ℕ) (n : ℕ) (m : Memory) (token p : ℕ)
    → IsCstr m p (w ++ tail)
    → All (λ c. c ≢ token) w
    → (m (p + length w) ≡ 0) ⊎ (m (p + length w) ≡ token)
    → length w < n
    → find_end n m token p ≡ ok (p + length w)
unfolding find_end
find_end_lem w tail zero m token p s plain stop lt = absurd (omega arith)
find_end_lem [] tail (suc n) m token p s plain (inl stop) lt = ground (arith, stop)
find_end_lem [] tail (suc n) m token p s plain (inr stop) lt = ground (arith, stop)
find_end_lem (x ∷ w) tail (suc n) m token p s plain stop lt =
    let at : p + 1 + length w ≡ p + suc (length w) = omega arith in
    ground
      (arith, find_end_lem w tail n m token (p + 1) s.2 plain.1 (rw at stop), s.0, s.1, plain.0)

-- What stands behind a word
pub behind_word :
    (w tail : List ℕ) (m : Memory) (p : ℕ) → IsCstr m p (w ++ tail) → IsCstr m (p + length w) tail
behind_word [] tail m p s = let e : p + 0 ≡ p = omega arith in rw e s
behind_word (x ∷ w) tail m p s =
    let e : p + suc (length w) ≡ p + 1 + length w = omega arith in
    rw e (behind_word w tail m (p + 1) s.2)

-- A NUL behind a word makes it a string.
pub cut_word :
    (w tail : List ℕ) (m : Memory) (p e : ℕ)
    → p + length w ≡ e
    → IsCstr m p (w ++ tail)
    → IsCstr (store m e 0) p w
cut_word [] tail m p e at s = ground arith
cut_word (x ∷ w) tail m p e at s =
    (ground (arith, s.0), s.1, cut_word w tail m (p + 1) e (omega arith) s.2)
