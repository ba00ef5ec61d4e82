-- ===== src/Str/Copy.antt =====
-- `strcpy`, `strcat` and `memcpy` on regions that do not overlap.
use seeking_os.Prelude.{
  ℕ, zero, suc, ◌+◌, ◌-◌, ◌<◌, ◌≤◌, ◌≡◌, refl, subst, ◌∙◌, ◌⊎◌, inl, inr, true, false, List, [],
  ◌∷◌, ◌++◌, arith, Memory, store, ok, length, ◌==◌, ==-refl, Bool-cases, ◌&&◌, not,
}
use seeking_os.Str.{copy, memcpy, copy_string, strcpy, strcat}
use seeking_os.Str.Cstr.{IsCstr, IsCstr-same, past_nul_lem}

-- `m'` differs from `m` at most at the `n` addresses from `dst` on.
abbrev pub SameOutside : ℕ → ℕ → Memory → Memory → Type 0
SameOutside dst n m m' = (a : ℕ) → (a < dst) ⊎ (dst + n ≤ a) → m' a ≡ m a

-- The `n` addresses from `p` on and the `k` addresses from `q` on do not meet.
abbrev pub Apart : ℕ → ℕ → ℕ → ℕ → Type 0
Apart p n q k = (p + n ≤ q) ⊎ (q + k ≤ p)

pub copy_string_lem :
    (xs : List ℕ) (n : ℕ) (m : Memory) (dst src : ℕ)
    → IsCstr m src xs
    → length xs < n
    → Apart dst (length xs + 1) src (length xs + 1)
    → (m' : Memory) × (copy_string n m dst src ≡ ok m')
      × IsCstr m' dst xs
      × SameOutside dst (length xs + 1) m m'
unfolding copy_string
copy_string_lem xs zero m dst src s lt apart = absurd (omega arith)
copy_string_lem [] (suc n) m dst src s lt apart =
    (store m dst (m src), rw s, rw (==-refl, s), λ a out. ground arith)
copy_string_lem (x ∷ xs) (suc n) m dst src (e, ne, s) lt apart =
    let m₁ = store m dst (m src) in
    let s₁ : IsCstr m₁ (src + 1) xs = IsCstr-same xs m m₁ (src + 1) s (λ a lo hi. ground arith) in
    let (m', ran, copied, same) =
      copy_string_lem xs n m₁ (dst + 1) (src + 1) s₁ (omega arith) (omega arith) in
    let more : (m src == 0) ≡ false = ground arith in
    (m', rw more ran, (ground (arith, same dst), ne, copied), λ a out. ground (arith, same a))

-- `strcpy` copies the string and its NUL, and writes nothing else.
pub strcpy_lem :
    (xs : List ℕ) (n : ℕ) (m : Memory) (dst src : ℕ)
    → IsCstr m src xs
    → 0 < dst
    → 0 < src
    → length xs < n
    → Apart dst (length xs + 1) src (length xs + 1)
    → (m' : Memory) × (strcpy n m dst src ≡ ok (dst, m'))
      × IsCstr m' dst xs
      × SameOutside dst (length xs + 1) m m'
unfolding strcpy
strcpy_lem xs n m dst src s pd ps lt apart =
    let (m', ran, copied, same) = copy_string_lem xs n m dst src s lt apart in
    let real : (not (dst == 0) && not (src == 0)) ≡ true = ground arith in
    (m', rw (real, ran), copied, same)

IsCstr-join :
    (xs ys : List ℕ) (m m' : Memory) (p q : ℕ)
    → q ≡ p + length xs
    → IsCstr m p xs
    → ((a : ℕ) → a < q → m' a ≡ m a)
    → IsCstr m' q ys
    → IsCstr m' p (xs ++ ys)
IsCstr-join [] ys m m' p q e s same t =
    let here : q ≡ p = omega arith in subst (λ a. IsCstr m' a ys) here t
IsCstr-join (x ∷ xs) ys m m' p q e (here, ne, s) same t =
    (same p (omega arith) ∙ here, ne, IsCstr-join xs ys m m' (p + 1) q (omega arith) s same t)

-- `strcat` puts the second string behind the first, over its NUL, and writes nothing else.
pub strcat_lem :
    (xs ys : List ℕ) (n : ℕ) (m : Memory) (dst src : ℕ)
    → IsCstr m dst xs
    → IsCstr m src ys
    → 0 < dst
    → 0 < src
    → length xs < n
    → length ys < n
    → Apart (dst + length xs) (length ys + 1) src (length ys + 1)
    → (m' : Memory) × (strcat n m dst src ≡ ok (dst, m'))
      × IsCstr m' dst (xs ++ ys)
      × SameOutside (dst + length xs) (length ys + 1) m m'
unfolding strcat
strcat_lem xs ys n m dst src s t pd ps lx ly apart =
    let (m', ran, copied, same) = copy_string_lem ys n m (dst + length xs) src t ly apart in
    let real : (not (dst == 0) && not (src == 0)) ≡ true = ground arith in
    let end : dst + length xs + 1 - 1 ≡ dst + length xs = omega arith in
    (
      m',
      rw (real, past_nul_lem xs n m dst s lx, end, ran),
      IsCstr-join xs ys m m' dst (dst + length xs) refl s (λ a lt. same a (inl lt)) copied,
      same,
    )

copy_get :
    (size : ℕ) (m : Memory) (dst src : ℕ)
    → Apart dst size src size
    → ((a : ℕ) → dst ≤ a → a < dst + size → copy m dst src size a ≡ m (src + (a - dst)))
      × SameOutside dst size m (copy m dst src size)
unfolding copy
copy_get zero m dst src apart = (λ a lo hi. absurd (omega arith), λ a out. refl)
copy_get (suc size) m dst src apart =
    let (inside, outside) = copy_get size (store m dst (m src)) (dst + 1) (src + 1) (omega arith) in
    (
      λ a lo hi. elim (Bool-cases (a == dst)) [
        | inl here ↦
            let at : src + (a - dst) ≡ src = ground arith in rw at (ground (arith, outside a))
        | inr later ↦
            let at : src + 1 + (a - (dst + 1)) ≡ src + (a - dst) = ground arith in
            let kept : (src + (a - dst) == dst) ≡ false = ground arith in
            inside a (ground arith) (omega arith) ∙ rw at (rw kept)
      ],
      λ a out. ground (arith, outside a),
    )

-- `memcpy` between regions that do not overlap.
pub memcpy_lem :
    (size : ℕ) (m : Memory) (dst src : ℕ)
    → 0 < dst
    → 0 < src
    → Apart dst size src size
    → (m' : Memory) × (memcpy m dst src size ≡ ok m')
      × ((i : ℕ) → i < size → m' (dst + i) ≡ m (src + i))
      × SameOutside dst size m m'
unfolding memcpy
memcpy_lem size m dst src pd ps apart =
    let (inside, outside) = copy_get size m dst src apart in
    let real : (not (dst == 0) && not (src == 0)) ≡ true = ground arith in
    (
      copy m dst src size,
      rw real,
      λ i lt.
          let at : src + (dst + i - dst) ≡ src + i = omega arith in
          inside (dst + i) (omega arith) (omega arith) ∙ rw at,
      outside,
    )
