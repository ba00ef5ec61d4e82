-- ===== src/Prelude/Bits.antt =====
-- The words' `&` and `|` with masks, by division: the laws that the tactics do not know.
use Prim.Native.Nat.{
  ℕ, zero, suc, ◌+◌, ◌-◌, ◌*◌, ◌/◌, ◌%◌, ◌^◌, ◌≤◌, min, max, bit_and, bit_or, digits,
  bit_and-bitwise, bit_or-bitwise,
}
use mathlib.Core.Path.{◌≡◌, refl, ap}
use native.Mathlib.Nat.{
  div-div-eq-div-mul, div-add-mod, pow-succ', one-le-pow, mul-one, div-one, mod_def,
}
use native.Mathlib.Omega.{arith}

-- More rounds than the first word has digits change nothing.
digits_enough :
    (end : ℕ → ℕ) (op : ℕ → ℕ → ℕ) (n m x y : ℕ)
    → x ≤ n
    → x ≤ m
    → digits end op n x y ≡ digits end op m x y
digits_enough end op zero zero x y le le' = refl
digits_enough end op zero (suc m) zero y le le' = refl
digits_enough end op zero (suc m) (suc x) y le le' = absurd (omega arith)
digits_enough end op (suc n) zero zero y le le' = refl
digits_enough end op (suc n) zero (suc x) y le le' = absurd (omega arith)
digits_enough end op (suc n) (suc m) zero y le le' = refl
digits_enough end op (suc n) (suc m) (suc x) y le le' =
    ap (λ high. high * 2 + op (suc x % 2) (y % 2))
      (digits_enough end op n m (suc x / 2) (y / 2) (omega arith) (omega arith))

-- The lowest digit of `&` and of `|`
and_digit : (x y : ℕ) → bit_and x y ≡ 2 * bit_and (x / 2) (y / 2) + min (x % 2) (y % 2)
and_digit zero y = omega (arith, bit_and-bitwise 0 y, bit_and-bitwise 0 (y / 2))
and_digit (suc x) y = omega (
  arith,
  bit_and-bitwise (suc x) y,
  bit_and-bitwise (suc x / 2) (y / 2),
  digits_enough (λ b. zero) min x (suc x / 2) (suc x / 2) (y / 2) (omega arith) (omega arith),
)

or_digit : (x y : ℕ) → bit_or x y ≡ 2 * bit_or (x / 2) (y / 2) + max (x % 2) (y % 2)
or_digit zero y = omega (arith, bit_or-bitwise 0 y, bit_or-bitwise 0 (y / 2))
or_digit (suc x) y = omega (
  arith,
  bit_or-bitwise (suc x) y,
  bit_or-bitwise (suc x / 2) (y / 2),
  digits_enough (λ b. b) max x (suc x / 2) (suc x / 2) (y / 2) (omega arith) (omega arith),
)

and_nothing : (n x : ℕ) → x ≤ n → bit_and x 0 ≡ 0
and_nothing zero zero le = omega (arith, bit_and-bitwise 0 0)
and_nothing zero (suc x) le = absurd (omega arith)
and_nothing (suc n) zero le = omega (arith, bit_and-bitwise 0 0)
and_nothing (suc n) (suc x) le =
    omega (arith, and_digit (suc x) 0, and_nothing n (suc x / 2) (omega arith))

or_nothing : (n x : ℕ) → x ≤ n → bit_or x 0 ≡ x
or_nothing n zero le = omega (arith, bit_or-bitwise 0 0)
or_nothing zero (suc x) le = absurd (omega arith)
or_nothing (suc n) (suc x) le =
    omega (arith, or_digit (suc x) 0, or_nothing n (suc x / 2) (omega arith))

and_even : (x m : ℕ) → bit_and x (2 * m) ≡ 2 * bit_and (x / 2) m
and_even x m =
    let half : 2 * m / 2 ≡ m = omega arith in
    let step = and_digit x (2 * m) in omega (arith, rw half at step)

and_odd : (x m : ℕ) → bit_and x (2 * m + 1) ≡ 2 * bit_and (x / 2) m + x % 2
and_odd x m =
    let half : (2 * m + 1) / 2 ≡ m = omega arith in
    let step = and_digit x (2 * m + 1) in omega (arith, rw half at step)

-- A mask that ends in zeros
pub and_shift : (k x m : ℕ) → bit_and x (m * 2 ^ k) ≡ bit_and (x / 2 ^ k) m * 2 ^ k
and_shift zero x m = rw (mul-one m, div-one x) (omega arith)
and_shift (suc k) x m =
    let halves : x / 2 / 2 ^ k ≡ x / (2 * 2 ^ k) = div-div-eq-div-mul x 2 (2 ^ k) in
    let even : m * (2 * 2 ^ k) ≡ 2 * (m * 2 ^ k) = grind arith in
    let later = and_shift k (x / 2) m in
    rw (pow-succ' 2 k, even, and_even x (m * 2 ^ k), later, halves) (grind arith)

-- A mask of ones keeps the remainder.
pub and_ones : (k x : ℕ) → bit_and x (2 ^ k - 1) ≡ x % 2 ^ k
and_ones zero x = omega (arith, and_nothing x x (omega arith))
and_ones (suc k) x =
    let halves : x / 2 / 2 ^ k ≡ x / (2 * 2 ^ k) = div-div-eq-div-mul x 2 (2 ^ k) in
    let pos : 1 ≤ 2 ^ k = one-le-pow k 2 (omega arith) in
    let odd : 2 * 2 ^ k - 1 ≡ 2 * (2 ^ k - 1) + 1 = omega arith in
    let later = and_ones k (x / 2) in
    let both : 2 * 2 ^ k * (x / 2 / 2 ^ k) ≡ 2 * (2 ^ k * (x / 2 / 2 ^ k)) = grind arith in
    rw
      (
        pow-succ' 2 k,
        odd,
        and_odd x (2 ^ k - 1),
        later,
        mod_def x (2 * 2 ^ k),
        mod_def (x / 2) (2 ^ k),
        ← halves,
      )
      (omega (arith, both, div-add-mod (x / 2) (2 ^ k)))

-- The flags of a page table entry
pub or_seven : (x : ℕ) → bit_or x 7 ≡ x / 8 * 8 + 7
or_seven x = omega (
  arith,
  or_digit x 7,
  or_digit (x / 2) 3,
  or_digit (x / 2 / 2) 1,
  or_nothing (x / 2 / 2 / 2) (x / 2 / 2 / 2) (omega arith),
)
