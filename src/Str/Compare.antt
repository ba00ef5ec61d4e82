-- ===== src/Str/Compare.antt =====
-- `strcmp` and `memcmp` against the order of lists.
use seeking_os.Prelude.{
  ℕ, zero, suc, ◌+◌, ◌<◌, ◌≡◌, refl, ◌↔◌, inl, inr, true, List, [], ◌∷◌, arith, Memory, ok, length,
  ◌==◌, ltb, Bool-cases, ◌&&◌, not, if◌then◌else◌, IsBytes,
}
use seeking_os.Str.{Sign, signed_key, compare_strings, strcmp}
use seeking_os.Str.Cstr.{IsCstr}

-- The order of strings of signed chars: at the first difference, the end of a string counting as 0
abbrev pub order : List ℕ → List ℕ → Sign
order [] [] = Sign.nil
order [] (y ∷ ys) = if ltb (signed_key 0) (signed_key y) then Sign.minus else Sign.plus
order (x ∷ xs) [] = if ltb (signed_key x) (signed_key 0) then Sign.minus else Sign.plus
order (x ∷ xs) (y ∷ ys) =
    let rest = order xs ys in
    if x == y then rest else if ltb (signed_key x) (signed_key y) then Sign.minus else Sign.plus

compare_strings_lem :
    (xs ys : List ℕ) (n : ℕ) (m : Memory) (a b : ℕ)
    → IsBytes m
    → IsCstr m a xs
    → IsCstr m b ys
    → length xs < n
    → compare_strings n m a b ≡ ok (order xs ys)
unfolding compare_strings
compare_strings_lem xs ys zero m a b h s t lt = absurd (omega arith)
compare_strings_lem [] [] (suc n) m a b h s t lt = rw (s, t)
compare_strings_lem [] (y ∷ ys) (suc n) m a b h s t lt = ground (arith, h b)
compare_strings_lem (x ∷ xs) [] (suc n) m a b h s t lt = ground (arith, h a)
compare_strings_lem (x ∷ xs) (y ∷ ys) (suc n) m a b h s t lt =
    ground (arith, h a, h b, compare_strings_lem xs ys n m (a + 1) (b + 1) h s.2 t.2)

order_refl : (xs : List ℕ) → order xs xs ≡ Sign.nil
order_refl [] = refl
order_refl (x ∷ xs) = ground (arith, order_refl xs)

eq-of_order :
    (xs ys : List ℕ) (m : Memory) (a b : ℕ)
    → IsBytes m
    → IsCstr m a xs
    → IsCstr m b ys
    → order xs ys ≡ Sign.nil
    → xs ≡ ys
eq-of_order [] [] m a b h s t e = refl
eq-of_order [] (y ∷ ys) m a b h s t e = ground (arith, h b)
eq-of_order (x ∷ xs) [] m a b h s t e = ground (arith, h a)
eq-of_order (x ∷ xs) (y ∷ ys) m a b h s t e = elim (Bool-cases (x == y)) [
  | inl same ↦ ground (arith, eq-of_order xs ys m (a + 1) (b + 1) h s.2 t.2 (rw same at e))
  | inr other ↦ ground arith
]

-- With fuel for the first string, `strcmp` of two strings compares them as signed chars up to the
-- first difference, and its result is 0 exactly if they are equal.
pub strcmp_lem :
    (xs ys : List ℕ) (n : ℕ) (m : Memory) (a b : ℕ)
    → IsBytes m
    → IsCstr m a xs
    → IsCstr m b ys
    → 0 < a
    → 0 < b
    → length xs < n
    → (strcmp n m a b ≡ ok (order xs ys)) × ((order xs ys ≡ Sign.nil) ↔ (xs ≡ ys))
unfolding strcmp
strcmp_lem xs ys n m a b h s t pa pb lt =
    let real : (not (a == 0) && not (b == 0)) ≡ true = ground arith in
    (
      rw real (compare_strings_lem xs ys n m a b h s t lt),
      (eq-of_order xs ys m a b h s t, λ e. rw (← e) (order_refl xs)),
    )
