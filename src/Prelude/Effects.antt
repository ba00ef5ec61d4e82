-- ===== src/Prelude/Effects.antt =====
-- The end of a call: a value, a failed ASSERT or a PANIC (kernel/debug.h stops the machine there),
-- or fuel that ran out.
use mathlib.Core.Path.{◌≡◌, refl}
use mathlib.Core.Bool.{Bool, true, false}

pub data Outcome {ℓ} (A : Type ℓ) : Type ℓ where
  ok : A → Outcome A
  panic : Outcome A
  out_of_fuel : Outcome A

infixl 5 ◌>>=◌ ◌>>◌
-- The rest of a function runs only behind a step that succeeds.
abbrev pub ◌>>=◌ {ℓ κ} :
    {Before : Type ℓ} {After : Type κ}
    → (step : Outcome Before) (rest : Before → Outcome After) → Outcome After
panic >>= rest = panic
out_of_fuel >>= rest = out_of_fuel
ok result >>= rest = rest result

abbrev pub ◌>>◌ {κ} :
    {After : Type κ} (step : Outcome (Unit {0})) (rest : Outcome After) → Outcome After
step >> rest = step >>= λ nothing. rest

-- `ASSERT(b)`
abbrev pub assert : Bool → Outcome (Unit {0})
assert false = panic
assert true = ok tt

-- An ASSERT that holds does nothing.
pub assert_holds {ℓ} : {B : Type ℓ} (b : Bool) (m : Outcome B) → b ≡ true → (assert b >> m) ≡ m
assert_holds true m e = refl
assert_holds false m e = cc

-- A chain that succeeds succeeds at each step.
pub >>=-eq-ok {ℓ κ} :
    {Before : Type ℓ} {After : Type κ}
    → (step : Outcome Before) (rest : Before → Outcome After) {end : After}
    → (step >>= rest) ≡ ok end
    → (middle : Before) × (step ≡ ok middle) × (rest middle ≡ ok end)
>>=-eq-ok panic rest ran = cc
>>=-eq-ok out_of_fuel rest ran = cc
>>=-eq-ok (ok middle) rest ran = (middle, refl, ran)

pub ok-injective {ℓ} : {A : Type ℓ} {a b : A} → ok a ≡ ok b → a ≡ b
ok-injective same = cc
