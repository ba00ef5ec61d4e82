-- ===== src/Str/Tests.antt =====
-- Strings in a small memory for lib/string.c.
use seeking_os.Prelude.{
  ℕ, ◌<◌, refl, ◌≢◌, List, [], ◌∷◌, arith, Memory, IsBytes, ◌==◌, if◌then◌else◌,
}
use seeking_os.Str.Cstr.{IsCstr}

-- "aba" at address 10 and "ab" at address 20
abbrev memory : Memory
memory a =
    if a == 10
    then b'a'
    else if a == 11
    then b'b'
    else if a == 12
    then b'a'
    else if a == 20
    then b'a'
    else if a == 21
    then b'b'
    else 0

memory-IsBytes : IsBytes memory
memory-IsBytes a = ground arith

abbrev aba : List ℕ
aba = b'a' ∷ b'b' ∷ b'a' ∷ []

abbrev ab : List ℕ
ab = b'a' ∷ b'b' ∷ []

nonzero : (c : ℕ) → 0 < c → c ≢ 0
nonzero c lt = ground arith

aba_at : IsCstr memory 10 aba
aba_at = (
  refl,
  nonzero _ (omega arith),
  (refl, nonzero _ (omega arith), (refl, nonzero _ (omega arith), refl)),
)

ab_at : IsCstr memory 20 ab
ab_at = (refl, nonzero _ (omega arith), (refl, nonzero _ (omega arith), refl))
