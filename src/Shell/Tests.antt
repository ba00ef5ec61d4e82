-- ===== src/Shell/Tests.antt =====
-- The line `ls  -l` at address 100.
use seeking_os.Prelude.{
  ℕ, ◌≡◌, refl, ◌+◌, ◌-◌, ◌≤◌, ◌<◌, ◌⊎◌, List, [], ◌∷◌, arith, Memory, Outcome, ok, panic, Option,
  none, some, ◌==◌, ltb, if◌then◌else◌,
}
use seeking_os.Shell.{max_arg_nr, skip_token, find_end, parse_words, cmd_parse}
use seeking_os.Shell.Words.{Words}
use seeking_os.Shell.Parse.{Placed}
use seeking_os.Shell.Whole.{cmd_parse_lem}

abbrev blank : ℕ
blank = 0x20

-- `ls  -l`
abbrev ls_line : List ℕ
ls_line = 0x6c ∷ 0x73 ∷ blank ∷ blank ∷ 0x2d ∷ 0x6c ∷ []

abbrev ls_words : List (List ℕ)
ls_words = (0x6c ∷ 0x73 ∷ []) ∷ (0x2d ∷ 0x6c ∷ []) ∷ []

abbrev char_at : List ℕ → ℕ → ℕ
char_at [] i = 0
char_at (x ∷ xs) i = if i == 0 then x else char_at xs (i - 1)

abbrev memory : Memory
memory a = if ltb a 100 then 0 else char_at ls_line (a - 100)

abbrev argv_of : Outcome (Option ℕ × (ℕ → ℕ) × Memory) → ℕ → ℕ
argv_of (ok r) = r.1
argv_of panic = λ i. 7
argv_of Outcome.out_of_fuel = λ i. 7

abbrev argc_of : Outcome (Option ℕ × (ℕ → ℕ) × Memory) → Option ℕ
argc_of (ok r) = r.0
argc_of panic = none
argc_of Outcome.out_of_fuel = none

abbrev byte_of : Outcome (Option ℕ × (ℕ → ℕ) × Memory) → ℕ → ℕ
byte_of (ok r) = r.2
byte_of panic = λ i. 7
byte_of Outcome.out_of_fuel = λ i. 7

two_words : argc_of (cmd_parse 20 20 memory 100 (λ i. 5) blank) ≡ some 2
unfolding cmd_parse parse_words skip_token find_end
two_words = refl

second_word : argv_of (cmd_parse 20 20 memory 100 (λ i. 5) blank) 1 ≡ 104
unfolding cmd_parse parse_words skip_token find_end
second_word = refl

cut_behind_first : byte_of (cmd_parse 20 20 memory 100 (λ i. 5) blank) 102 ≡ 0
unfolding cmd_parse parse_words skip_token find_end
cut_behind_first = refl

cmd_parse_lem_example :
    (argv' : ℕ → ℕ) × (m' : Memory) × (cmd_parse 20 20 memory 100 (λ i. 5) blank
      ≡ ok (some 2, argv', m'))
    × Placed m' argv' 0 ls_words
    × ((j : ℕ) → 2 ≤ j → argv' j ≡ (if ltb j max_arg_nr then 0 else 5))
    × ((a : ℕ) → (a < 100) ⊎ (100 + 6 < a) → m' a ≡ memory a)
cmd_parse_lem_example =
    cmd_parse_lem blank ls_line ls_words 20 20 memory 100 (λ i. 5)
      (Words.word (omega arith, (omega arith, (omega arith, tt)))
        (Words.between (Words.last (omega arith, (omega arith, (omega arith, tt))))))
      (omega arith)
      (
        refl,
        omega arith,
        (
          refl,
          omega arith,
          (refl, omega arith, (refl, omega arith, (refl, omega arith, (refl, omega arith, refl)))),
        ),
      )
      (omega arith) (omega arith) (omega arith) (omega arith)
