-- ===== src/Shell.antt =====
-- shell/shell.c: `cmd_parse`, which cuts a command line into words in place.
-- `argv` is the array of addresses. The first fuel is for the words, the second for the characters.
pub mod Words
pub mod Parse
pub mod Whole
mod Tests
use seeking_os.Prelude.{
  ℕ, zero, suc, ◌+◌, Bool, true, false, not, ◌&&◌, Option, none, some, Memory, store, Outcome, ok,
  out_of_fuel, assert, ◌>>=◌, ◌>>◌, ◌==◌, ltb, if◌then◌else◌,
}

abbrev pub max_arg_nr : ℕ
max_arg_nr = 16

-- `while (*next == token) next++;`
unfoldable pub skip_token : ℕ → Memory → ℕ → ℕ → Outcome ℕ
skip_token zero m token next = out_of_fuel
skip_token (suc n) m token next =
    let rest = skip_token n m token (next + 1) in if m next == token then rest else ok next

-- `while (*next && *next != token) next++;`
unfoldable pub find_end : ℕ → Memory → ℕ → ℕ → Outcome ℕ
find_end zero m token next = out_of_fuel
find_end (suc n) m token next =
    let rest = find_end n m token (next + 1) in
    if not (m next == 0) && not (m next == token) then rest else ok next

-- The outer loop: `argc` with `none` for -1, the array and the memory
unfoldable pub parse_words :
    ℕ → ℕ → Memory → ℕ → (ℕ → ℕ) → ℕ → ℕ → Outcome (Option ℕ × (ℕ → ℕ) × Memory)
parse_words zero n m token argv argc next = out_of_fuel
parse_words (suc rounds) n m token argv argc next = elim (m next == 0) [
  | true ↦ ok (some argc, argv, m)
  | false ↦ (do
    start ← skip_token n m token next
    elim (m start == 0) [
      | true ↦ ok (some argc, argv, m)
      | false ↦ (do
        end ← find_end n m token start
        let argv' : ℕ → ℕ = store argv argc start
        let m' : Memory = if not (m end == 0) then store m end 0 else m
        let next' = if not (m end == 0) then end + 1 else end
        elim (ltb max_arg_nr argc) [
          | true ↦ ok (none, argv', m')
          | false ↦ parse_words rounds n m' token argv' (argc + 1) next'
        ])
    ])
]

unfoldable pub cmd_parse : ℕ → ℕ → Memory → ℕ → (ℕ → ℕ) → ℕ → Outcome (Option ℕ × (ℕ → ℕ) × Memory)
cmd_parse rounds n m cmd_str argv token = do
  assert (not (cmd_str == 0))
  parse_words rounds n m token (λ i. if ltb i max_arg_nr then 0 else argv i) 0 cmd_str
