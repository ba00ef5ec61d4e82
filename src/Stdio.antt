-- ===== src/Stdio.antt =====
-- lib/stdio.c: `itoa`, which writes a number's digits, and its use by `vsprintf`.
pub mod Digits
pub mod Format
mod Tests
use seeking_os.Prelude.{
  ℕ, zero, suc, ◌+◌, ◌-◌, ◌/◌, ◌%◌, List, [], ◌∷◌, ◌++◌, Outcome, ok, out_of_fuel, ◌>>=◌, ◌==◌, not,
  ◌^◌, ltb, if◌then◌else◌, Memory, store,
}
use seeking_os.Str.{strlen}

-- `m + '0'` or `m - 10 + 'A'`
unfoldable pub digit_char : ℕ → ℕ
digit_char m = if ltb m 10 then m + b'0' else m - 10 + b'A'

-- The characters that are written from `*buf_ptr_addr` on, which moves behind them. The fuel bounds
-- the depth of the recursion.
unfoldable pub itoa : ℕ → ℕ → ℕ → Outcome (List ℕ)
itoa zero value base = out_of_fuel
itoa (suc n) value base =
    let m = value % base in
    let i = value / base in
    let front = itoa n i base in
    do written ← if i == 0 then ok [] else front; ok (written ++ (digit_char m ∷ []))

-- `itoa` of a word, with fuel for its value
unfoldable pub put_unsigned : ℕ → ℕ → Outcome (List ℕ)
put_unsigned word base = itoa (suc word) word base

-- The `case 'd'`: the word is an `int`, and `0 - arg_int` is its magnitude.
unfoldable pub put_signed : ℕ → Outcome (List ℕ)
put_signed word =
    if ltb word (2 ^ 31)
    then put_unsigned word 10
    else (do cs ← put_unsigned (2 ^ 32 - word) 10; ok (b'-' ∷ cs))

-- The loop of `vsprintf`: the characters of the format up to its NUL, the words of the stack from `ap` on,
-- and the string that a pointer leads to. The result is what is written to `str`, with no NUL behind it.
unfoldable pub vsprintf : List ℕ → (ℕ → ℕ) → ℕ → (ℕ → List ℕ) → Outcome (List ℕ)
vsprintf [] words ap strings = ok []
vsprintf (index_char ∷ []) words ap strings =
    if index_char == b'%' then ok [] else ok (index_char ∷ [])
vsprintf (index_char ∷ next ∷ format) words ap strings =
    let after = vsprintf format words (ap + 1) strings in
    let from_next = vsprintf (next ∷ format) words ap strings in
    if not (index_char == b'%')
    then (do out ← from_next; ok (index_char ∷ out))
    else if next == b'x'
    then (do cs ← put_unsigned (words ap) 16; out ← after; ok (cs ++ out))
    else if next == b's'
    then (do out ← after; ok (strings (words ap) ++ out))
    else if next == b'c'
    then (do out ← after; ok (words ap % 256 ∷ out))
    else if next == b'd'
    then (do cs ← put_signed (words ap); out ← after; ok (cs ++ out))
    else from_next

-- The characters go to `str`.
abbrev pub put_chars : Memory → ℕ → List ℕ → Memory
put_chars m str [] = m
put_chars m str (c ∷ cs) = put_chars (store m str c) (str + 1) cs

-- The whole call, which returns `strlen(str)`, up to a NUL that stood in memory before; `n` is the fuel for
-- that.
unfoldable pub vsprintf_to :
    ℕ → Memory → ℕ → List ℕ → (ℕ → ℕ) → ℕ → (ℕ → List ℕ) → Outcome (ℕ × Memory)
vsprintf_to n m str format words ap strings = do
  written ← vsprintf format words ap strings
  let m' = put_chars m str written
  len ← strlen n m' str
  ok (len, m')
