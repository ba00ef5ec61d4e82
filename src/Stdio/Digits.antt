-- ===== src/Stdio/Digits.antt =====
-- `itoa` writes the digits that stand for its number.
use native.Mathlib.Nat.{div-add-mod'}
use seeking_os.Prelude.{
  ℕ, zero, suc, ◌+◌, ◌-◌, ◌*◌, ◌/◌, ◌%◌, ◌≤◌, ◌<◌, ◌≡◌, refl, ◌≢◌, ◌∙◌, inl, inr, List, [], ◌∷◌,
  ◌++◌, arith, ok, Bool-cases, ◌==◌, ltb, if◌then◌else◌,
}
use seeking_os.Stdio.{digit_char, itoa}

-- The value of a digit's character
abbrev pub digit_value : ℕ → ℕ
digit_value c = if ltb c b'A' then c - b'0' else c - b'A' + 10

-- The number that digits stand for, the highest first
abbrev pub value_of : ℕ → ℕ → List ℕ → ℕ
value_of base acc [] = acc
value_of base acc (c ∷ cs) = value_of base (acc * base + digit_value c) cs

value_of-append :
    (xs : List ℕ) (base acc c : ℕ)
    → value_of base acc (xs ++ (c ∷ [])) ≡ value_of base acc xs * base + digit_value c
value_of-append [] base acc c = refl
value_of-append (x ∷ xs) base acc c = value_of-append xs base (acc * base + digit_value x) c

digit_value-digit_char : (m : ℕ) → m < 16 → digit_value (digit_char m) ≡ m
unfolding digit_char
digit_value-digit_char m lt = ground arith

abbrev pub First : (ℕ → Type 0) → List ℕ → Type 0
First P [] = ⊥
First P (x ∷ xs) = P x

First-append : (P : ℕ → Type 0) (xs ys : List ℕ) → First P xs → First P (xs ++ ys)
First-append P [] ys h = absurd h
First-append P (x ∷ xs) ys h = h

-- What is written for `number` in `base`: some digits that stand for it, the first of them no 0 if the
-- number is none.
pub record Written (number base : ℕ) (cs : List ℕ) : Type 0 where
  pub stands_for : value_of base 0 cs ≡ number
  pub some_digit : First (λ c. 0 ≤ c) cs
  pub no_zeros : number ≢ 0 → First (λ c. c ≢ b'0') cs

digit_char-ne_zero : (m : ℕ) → m ≢ 0 → digit_char m ≢ b'0'
unfolding digit_char
digit_char-ne_zero m ne = ground arith

smaller : (number base n : ℕ) → 1 < base → number < suc n → number / base ≢ 0 → number / base < n
smaller number base n lo lt ne =
    let twice : 2 * (number / base) ≤ base * (number / base) = grind arith in
    omega (arith, div-add-mod' number base)

-- In a base from 2 to 16 and with more fuel than the number, `itoa` writes digits that stand for
-- the number, the first of them not 0 unless the number is.
pub itoa-Written :
    (n number base : ℕ)
    → 1 < base
    → base ≤ 16
    → number < n
    → (cs : List ℕ) × (itoa n number base ≡ ok cs) × Written number base cs
unfolding itoa
itoa-Written zero number base lo hi lt = absurd (omega arith)
itoa-Written (suc n) number base lo hi lt =
    let digit = digit_value-digit_char (number % base) (omega arith) in
    elim (Bool-cases (number / base == 0)) [
      | inl last ↦
          let all : number % base ≡ number = ground arith in
          (
            digit_char (number % base) ∷ [],
            rw last,
            record {
              stands_for = omega arith;
              some_digit = omega arith;
              no_zeros = λ ne. digit_char-ne_zero (number % base) (omega arith);
            },
          )
      | inr more ↦
          let (cs, ran, w) =
            itoa-Written n (number / base) base lo hi
              (smaller number base n lo lt (ground arith)) in
          (
            cs ++ (digit_char (number % base) ∷ []),
            rw (more, ran),
            record {
              stands_for =
                  value_of-append cs base 0 (digit_char (number % base))
                  ∙ rw (w.stands_for, digit) (div-add-mod' number base);
              some_digit = First-append _ cs _ w.some_digit;
              no_zeros = λ ne. First-append _ cs _ (w.no_zeros (ground arith));
            },
          )
    ]
