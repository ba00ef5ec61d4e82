-- ===== src/Shell/Parse.antt =====
-- The outer loop of `cmd_parse`: one step of it for each way a line can start.
use seeking_os.Prelude.{
  ℕ, suc, ◌+◌, ◌≤◌, ◌<◌, ◌≡◌, refl, ◌∙◌, ◌≢◌, ◌⊎◌, inl, inr, Bool, true, false, not, List, [], ◌∷◌,
  ◌++◌, arith, Memory, store, Option, some, Outcome, ok, length, length-append, ◌==◌, ltb,
  if◌then◌else◌,
}
use seeking_os.Str.Cstr.{IsCstr, IsCstr-same}
use seeking_os.Shell.{max_arg_nr, skip_token, find_end, parse_words}
use seeking_os.Shell.Words.{IsWord, append-nil, head_char, find_end_lem, behind_word, cut_word}

-- From the entry `i` on, the array has the addresses of the words.
abbrev pub Placed : Memory → (ℕ → ℕ) → ℕ → List (List ℕ) → Type 0
Placed m argv i [] = Unit
Placed m argv i (w ∷ ws) = IsCstr m (argv i) w × Placed m argv (i + 1) ws

abbrev pub Result : Type 0
Result = Outcome (Option ℕ × (ℕ → ℕ) × Memory)

-- The words of a line of `len` characters at `p` are in the array from the entry `argc` on.
abbrev pub Parsed : Memory → ℕ → ℕ → (ℕ → ℕ) → ℕ → List (List ℕ) → Result → Type 0
Parsed m p len argv argc ws result =
    (argv' : ℕ → ℕ) × (m' : Memory) × (result ≡ ok (some (argc + length ws), argv', m'))
    × Placed m' argv' argc ws
    × ((j : ℕ) → (j < argc) ⊎ (argc + length ws ≤ j) → argv' j ≡ argv j)
    × ((a : ℕ) → (a < p) ⊎ (p + len < a) → m' a ≡ m a)

pub no_words :
    (rounds n : ℕ) (m : Memory) (token : ℕ) (argv : ℕ → ℕ) (argc p : ℕ)
    → (m p == 0) ≡ true
    → parse_words (suc rounds) n m token argv argc p ≡ ok (some argc, argv, m)
unfolding parse_words
no_words rounds n m token argv argc p e = rw (e, parse_words) refl

pub only_tokens :
    (rounds n : ℕ) (m : Memory) (token : ℕ) (argv : ℕ → ℕ) (argc p q : ℕ)
    → (m p == 0) ≡ false
    → skip_token n m token p ≡ ok q
    → (m q == 0) ≡ true
    → parse_words (suc rounds) n m token argv argc p ≡ ok (some argc, argv, m)
unfolding parse_words
only_tokens rounds n m token argv argc p q some_ ran e = rw (some_, parse_words, ran) (ground arith)

next_word :
    (rounds n : ℕ) (m : Memory) (token : ℕ) (argv : ℕ → ℕ) (argc p q end : ℕ) (at_nul : Bool)
    → (m p == 0) ≡ false
    → skip_token n m token p ≡ ok q
    → (m q == 0) ≡ false
    → find_end n m token q ≡ ok end
    → (m end == 0) ≡ at_nul
    → ltb max_arg_nr argc ≡ false
    → parse_words (suc rounds) n m token argv argc p
      ≡ parse_words rounds n
          (if not at_nul then store m end 0 else m)
          token
          (store argv argc q)
          (argc + 1)
          (if not at_nul then end + 1 else end)
unfolding parse_words
next_word rounds n m token argv argc p q end at_nul some_ ran here found nul fits = ground arith

-- The word that ends the line
pub last-Parsed :
    (token : ℕ) (w : List ℕ) (rounds n : ℕ) (m : Memory) (argv : ℕ → ℕ) (argc p q len : ℕ)
    → IsWord token w
    → (m p == 0) ≡ false
    → skip_token n m token p ≡ ok q
    → IsCstr m q w
    → q + length w ≡ p + len
    → length w < n
    → argc + 1 ≤ max_arg_nr
    → Parsed m p len argv argc (w ∷ []) (parse_words (suc (suc rounds)) n m token argv argc p)
last-Parsed token w rounds n m argv argc p q len word_ some_ ran s stop lt fits =
    let end : m (q + length w) ≡ 0 = behind_word w [] m q (rw (append-nil w) s) in
    let nul : (m (q + length w) == 0) ≡ true = ground (arith, end) in
    let found = find_end_lem w [] n m token q (rw (append-nil w) s) word_.1 (inl end) lt in
    let here = head_char m q w s word_.0 in
    let fits' : ltb max_arg_nr argc ≡ false = ground arith in
    let at : store argv argc q argc ≡ q = ground arith in
    (
      store argv argc q,
      m,
      next_word (suc rounds) n m token argv argc p q (q + length w) true some_ ran here found nul
            fits'
          ∙ no_words rounds n m token (store argv argc q) (argc + 1) (q + length w) nul,
      (rw at s, tt),
      λ j out. ground arith,
      λ a out. refl,
    )

-- A word before a token, and what the rest of the line makes of its end
pub word-Parsed :
    (token : ℕ) (w xs : List ℕ) (ws : List (List ℕ)) (rounds n : ℕ) (m : Memory) (argv : ℕ → ℕ)
    (argc p q len : ℕ)
    → IsWord token w
    → token ≢ 0
    → (m p == 0) ≡ false
    → skip_token n m token p ≡ ok q
    → IsCstr m q (w ++ (token ∷ xs))
    → p ≤ q
    → q + length (w ++ (token ∷ xs)) ≡ p + len
    → length w < n
    → argc + 1 ≤ max_arg_nr
    → Parsed
        (store m (q + length w) 0)
        (q + length w + 1)
        (length xs)
        (store argv argc q)
        (argc + 1)
        ws
        (parse_words rounds n
          (store m (q + length w) 0)
          token
          (store argv argc q)
          (argc + 1)
          (q + length w + 1))
    → Parsed m p len argv argc (w ∷ ws) (parse_words (suc rounds) n m token argv argc p)
word-Parsed token w xs ws rounds n m argv argc p q len word_ real some_ ran s le stop lt fits
      (argv', m', rest, placed, kept, same) =
    let behind = behind_word w (token ∷ xs) m q s in
    let nul : (m (q + length w) == 0) ≡ false = ground (arith, behind.0, real) in
    let found = find_end_lem w (token ∷ xs) n m token q s word_.1 (inr behind.0) lt in
    let size = length-append w (token ∷ xs) in
    let here = head_char m q (w ++ (token ∷ xs)) s (omega (arith, size, word_.0)) in
    let fits' : ltb max_arg_nr argc ≡ false = ground arith in
    let at : argv' argc ≡ q = kept argc (inl (omega arith)) ∙ ground arith in
    let cut = cut_word w (token ∷ xs) m q (q + length w) refl s in
    let this : IsCstr m' q w =
      IsCstr-same w (store m (q + length w) 0) m' q cut (λ a lo hi. same a (inl (omega arith))) in
    let count : argc + 1 + length ws ≡ argc + suc (length ws) = omega arith in
    (
      argv',
      m',
      next_word rounds n m token argv argc p q (q + length w) false some_ ran here found nul fits'
          ∙ rest
          ∙ rw count refl,
      (rw at this, placed),
      λ j out. ground (arith, kept j, count),
      λ a out. elim out [
        | inl before ↦ same a (inl (omega arith)) ∙ ground arith
        | inr after ↦ same a (inr (omega (arith, size))) ∙ ground (arith, size)
      ],
    )
