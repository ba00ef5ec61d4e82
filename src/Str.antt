-- ===== src/Str.antt =====
-- lib/string.c over flat memory. A pointer is an address, NULL is 0, and a failed `assert` is `panic`.
-- A loop that runs to the end of a string takes fuel; the theorems bound it by the length.
-- A `char` is signed: a byte of 128 or more is negative where it is compared.
pub mod Cstr
pub mod Copy
pub mod Search
pub mod Compare
mod Tests
use seeking_os.Prelude.{
  ℕ, zero, suc, ◌+◌, ◌-◌, ◌%◌, ◌^◌, Bool, true, false, not, ◌&&◌, Option, none, some, Memory, store,
  Outcome, ok, out_of_fuel, assert, ◌>>=◌, ◌>>◌, ◌==◌, ltb, if◌then◌else◌, add32, sub32,
}

-- The loop of `memset`: `while (size-- > 0) *dst++ = value;`
unfoldable pub fill : Memory → ℕ → ℕ → ℕ → Memory
fill m dst value zero = m
fill m dst value (suc size) = fill (store m dst value) (dst + 1) value size

unfoldable pub memset : Memory → ℕ → ℕ → ℕ → Outcome Memory
memset m dst value size = do assert (not (dst == 0)); ok (fill m dst value size)

-- The loop of `memcpy`, which reads and writes byte by byte
unfoldable pub copy : Memory → ℕ → ℕ → ℕ → Memory
copy m dst src zero = m
copy m dst src (suc size) = copy (store m dst (m src)) (dst + 1) (src + 1) size

unfoldable pub memcpy : Memory → ℕ → ℕ → ℕ → Outcome Memory
memcpy m dst src size = do assert (not (dst == 0) && not (src == 0)); ok (copy m dst src size)

-- The results -1, 0 and 1 of a comparison
pub data Sign : Type 0 where
  minus nil plus : Sign

unfoldable pub compare_bytes : Memory → ℕ → ℕ → ℕ → Sign
compare_bytes m a b zero = Sign.nil
compare_bytes m a b (suc size) =
    let rest = compare_bytes m (a + 1) (b + 1) size in
    if not (m a == m b) then (if ltb (m b) (m a) then Sign.plus else Sign.minus) else rest

unfoldable pub memcmp : Memory → ℕ → ℕ → ℕ → Outcome Sign
memcmp m a b size = do assert (not (a == 0) && not (b == 0)); ok (compare_bytes m a b size)

-- `while ((*dst_++ = *src_++));`, with the addresses behind what was copied
unfoldable pub copy_string : ℕ → Memory → ℕ → ℕ → Outcome Memory
copy_string zero m dst src = out_of_fuel
copy_string (suc n) m dst src =
    let m' = store m dst (m src) in
    let rest = copy_string n m' (dst + 1) (src + 1) in if m src == 0 then ok m' else rest

-- The result is `dst_` itself, and the memory.
unfoldable pub strcpy : ℕ → Memory → ℕ → ℕ → Outcome (ℕ × Memory)
strcpy n m dst src = do
  assert (not (dst == 0) && not (src == 0))
  m' ← copy_string n m dst src
  ok (dst, m')

-- `while (*p++);`: the address behind the NUL
unfoldable pub past_nul : ℕ → Memory → ℕ → Outcome ℕ
past_nul zero m p = out_of_fuel
past_nul (suc n) m p = let rest = past_nul n m (p + 1) in if m p == 0 then ok (p + 1) else rest

unfoldable pub strlen : ℕ → Memory → ℕ → Outcome ℕ
strlen n m str = do assert (not (str == 0)); p ← past_nul n m str; ok (sub32 (sub32 p str) 1)

-- The order of signed chars is the order of these.
abbrev pub signed_key : ℕ → ℕ
signed_key c = (c + 128) % 256

unfoldable pub compare_strings : ℕ → Memory → ℕ → ℕ → Outcome Sign
compare_strings zero m a b = out_of_fuel
compare_strings (suc n) m a b =
    let rest = compare_strings n m (a + 1) (b + 1) in
    if not (m a == 0) && m a == m b
    then rest
    else ok (
        if ltb (signed_key (m a)) (signed_key (m b))
        then Sign.minus
        else if ltb (signed_key (m b)) (signed_key (m a))
        then Sign.plus
        else Sign.nil)

unfoldable pub strcmp : ℕ → Memory → ℕ → ℕ → Outcome Sign
strcmp n m a b = do assert (not (a == 0) && not (b == 0)); compare_strings n m a b

-- `*str == ch` of a signed char and a `uint8_t`
abbrev pub char_eq : ℕ → ℕ → Bool
char_eq c ch = ltb c 128 && c == ch

unfoldable pub find_char : ℕ → Memory → ℕ → ℕ → Outcome (Option ℕ)
find_char zero m str ch = out_of_fuel
find_char (suc n) m str ch =
    let rest = find_char n m (str + 1) ch in
    if m str == 0 then ok none else if char_eq (m str) ch then ok (some str) else rest

-- `none` is NULL.
unfoldable pub strchr : ℕ → Memory → ℕ → ℕ → Outcome (Option ℕ)
strchr n m str ch = do assert (not (str == 0)); find_char n m str ch

unfoldable pub find_last : ℕ → Memory → ℕ → ℕ → Option ℕ → Outcome (Option ℕ)
find_last zero m str ch last_char = out_of_fuel
find_last (suc n) m str ch last_char =
    let rest = find_last n m (str + 1) ch (if char_eq (m str) ch then some str else last_char) in
    if m str == 0 then ok last_char else rest

unfoldable pub strrchr : ℕ → Memory → ℕ → ℕ → Outcome (Option ℕ)
strrchr n m str ch = do assert (not (str == 0)); find_last n m str ch none

unfoldable pub strcat : ℕ → Memory → ℕ → ℕ → Outcome (ℕ × Memory)
strcat n m dst src = do
  assert (not (dst == 0) && not (src == 0))
  dst_tail ← past_nul n m dst
  m' ← copy_string n m (dst_tail - 1) src
  ok (dst, m')

unfoldable pub count_char : ℕ → Memory → ℕ → ℕ → ℕ → Outcome ℕ
count_char zero m p ch ch_cnt = out_of_fuel
count_char (suc n) m p ch ch_cnt =
    let rest = count_char n m (p + 1) ch (if char_eq (m p) ch then add32 ch_cnt 1 else ch_cnt) in
    if m p == 0 then ok ch_cnt else rest

unfoldable pub strchrs : ℕ → Memory → ℕ → ℕ → Outcome ℕ
strchrs n m str ch = do assert (not (str == 0)); count_char n m str ch 0
