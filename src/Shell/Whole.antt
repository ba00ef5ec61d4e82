-- ===== src/Shell/Whole.antt =====
-- `cmd_parse` on a whole line.
use seeking_os.Prelude.{
  ℕ, zero, suc, ◌+◌, ◌≤◌, ◌<◌, ◌≡◌, refl, sym, ◌∙◌, ◌≢◌, ◌⊎◌, inr, true, false, List, [], ◌∷◌,
  arith, Memory, store, some, ok, length, length-append, ◌==◌, ltb, if◌then◌else◌, subst,
}
use seeking_os.Str.Cstr.{IsCstr, IsCstr-same}
use seeking_os.Shell.{max_arg_nr, skip_token, parse_words, cmd_parse}
use seeking_os.Shell.Words.{
  Words, Start, at_end, at_last, at_word, empty_line, skip_token_lem, behind_word,
}
use seeking_os.Shell.Parse.{Placed, Parsed, no_words, only_tokens, last-Parsed, word-Parsed}

-- That `rounds` rounds are enough for lines with fewer words
abbrev Enough : ℕ → ℕ → ℕ → Type 0
Enough token n rounds =
    (xs : List ℕ) (ws : List (List ℕ)) (m : Memory) (argv : ℕ → ℕ) (argc p : ℕ)
    → Words token xs ws
    → IsCstr m p xs
    → length xs < n
    → length ws < rounds
    → argc + length ws ≤ max_arg_nr
    → Parsed m p (length xs) argv argc ws (parse_words rounds n m token argv argc p)

-- One round more, by what stands behind the tokens
one_round :
    {token : ℕ} {ys : List ℕ} {ws : List (List ℕ)} (rounds n : ℕ) (m : Memory) (argv : ℕ → ℕ)
    (argc p q len : ℕ)
    → Enough token n rounds
    → Start token ys ws
    → token ≢ 0
    → (m p == 0) ≡ false
    → skip_token n m token p ≡ ok q
    → IsCstr m q ys
    → p ≤ q
    → q + length ys ≡ p + len
    → len < n
    → length ws < suc rounds
    → argc + length ws ≤ max_arg_nr
    → Parsed m p len argv argc ws (parse_words (suc rounds) n m token argv argc p)
one_round {token = token} rounds n m argv argc p q len again at_end real some_ ran s le stop lt more
      fits =
    let nul : (m q == 0) ≡ true = ground (arith, s) in
    let count : argc ≡ argc + 0 = omega arith in
    (
      argv,
      m,
      only_tokens rounds n m token argv argc p q some_ ran nul ∙ rw (← count) refl,
      tt,
      λ j out. refl,
      λ a out. refl,
    )
one_round zero n m argv argc p q len again (at_last word_) real some_ ran s le stop lt more fits =
    absurd (omega arith)
one_round {token = token} (suc rounds) n m argv argc p q len again (at_last {w = w} word_) real
      some_ ran s le stop lt more fits =
    last-Parsed token w rounds n m argv argc p q len word_ some_ ran s stop (omega arith) fits
one_round {token = token} rounds n m argv argc p q len again
      (at_word {w = w} {xs = xs} {ws = ws} word_ behind) real some_ ran s le stop lt more fits =
    let size = length-append w (token ∷ xs) in
    let m' : Memory = store m (q + length w) 0 in
    let tail : IsCstr m (q + length w + 1) xs = (behind_word w (token ∷ xs) m q s).2 in
    let tail' : IsCstr m' (q + length w + 1) xs =
      IsCstr-same xs m m' (q + length w + 1) tail (λ a lo hi. ground arith) in
    let rest =
      again xs ws m' (store argv argc q) (argc + 1) (q + length w + 1) behind tail'
        (omega (arith, size)) (omega arith) (omega arith) in
    word-Parsed token w xs ws rounds n m argv argc p q len word_ real some_ ran s le stop
      (omega (arith, size)) (omega arith) rest

parse_words_lem : {token : ℕ} (rounds n : ℕ) → token ≢ 0 → Enough token n rounds
parse_words_lem zero n real xs ws m argv argc p line s lt more fits = absurd (omega arith)
parse_words_lem {token = token} (suc rounds) n real [] ws m argv argc p line s lt more fits =
    let none_ : [] ≡ ws = sym (empty_line line refl) in
    let nul : (m p == 0) ≡ true = ground (arith, s) in
    let count : argc ≡ argc + 0 = omega arith in
    subst (λ us. Parsed m p 0 argv argc us (parse_words (suc rounds) n m token argv argc p)) none_
      (
        argv,
        m,
        no_words rounds n m token argv argc p nul ∙ rw (← count) refl,
        tt,
        λ j out. refl,
        λ a out. refl,
      )
parse_words_lem {token = token} (suc rounds) n real (x ∷ xs) ws m argv argc p line s lt more fits =
    let some_ : (m p == 0) ≡ false = ground (arith, s.0, s.1) in
    let (q, ys, ran, s', start, le, len) = skip_token_lem n m p line real s lt in
    one_round rounds n m argv argc p q (suc (length xs)) (parse_words_lem rounds n real) start real
      some_ ran s' le len lt more fits

-- On a line that consists of at most 16 words between tokens, `cmd_parse` ends, with fuel beyond
-- its words and its characters, and returns the number of words; the entries of the array lead to
-- the words, each a string now, the entries up to the 16th behind them are NULL and those from
-- there on as before, and no byte outside the line has changed.
pub cmd_parse_lem :
    (token : ℕ) (xs : List ℕ) (ws : List (List ℕ)) (rounds n : ℕ) (m : Memory) (cmd_str : ℕ)
    (argv : ℕ → ℕ)
    → Words token xs ws
    → token ≢ 0
    → IsCstr m cmd_str xs
    → 0 < cmd_str
    → length xs < n
    → length ws < rounds
    → length ws ≤ max_arg_nr
    → (argv' : ℕ → ℕ) × (m' : Memory) × (cmd_parse rounds n m cmd_str argv token
        ≡ ok (some (length ws), argv', m'))
      × Placed m' argv' 0 ws
      × ((j : ℕ) → length ws ≤ j → argv' j ≡ (if ltb j max_arg_nr then 0 else argv j))
      × ((a : ℕ) → (a < cmd_str) ⊎ (cmd_str + length xs < a) → m' a ≡ m a)
unfolding cmd_parse
cmd_parse_lem token xs ws rounds n m cmd_str argv line real s some_ lt more fits =
    let start : ℕ → ℕ = λ i. if ltb i max_arg_nr then 0 else argv i in
    let (argv', m', ran, placed, kept, same) =
      parse_words_lem rounds n real xs ws m start 0 cmd_str line s lt more (omega arith) in
    let count : 0 + length ws ≡ length ws = omega arith in
    (argv', m', ground (arith, ran, count), placed, λ j le. kept j (inr (omega arith)), same)
