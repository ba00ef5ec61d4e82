-- ===== src/Thread/Queue.antt =====
-- The list view of the queues of lib/kernel/list.c.
use seeking_os.Prelude.{ℕ, ◌≡◌, refl, Bool, true, false, ◌||◌, List, [], ◌∷◌, ◌++◌, arith, ◌==◌}

abbrev pub elem_find : List ℕ → ℕ → Bool
elem_find [] e = false
elem_find (x ∷ xs) e = (x == e) || elem_find xs e

abbrev pub list_append : List ℕ → ℕ → List ℕ
list_append xs e = xs ++ (e ∷ [])

abbrev pub list_push : List ℕ → ℕ → List ℕ
list_push xs e = e ∷ xs

abbrev pub list_empty : List ℕ → Bool
list_empty [] = true
list_empty (x ∷ xs) = false

-- No element occurs twice.
abbrev pub Distinct : List ℕ → Type 0
Distinct [] = Unit
Distinct (x ∷ xs) = (elem_find xs x ≡ false) × Distinct xs

pub find-append :
    (xs : List ℕ) (e t : ℕ) → elem_find (list_append xs e) t ≡ (elem_find xs t || (e == t))
find-append [] e t = ground arith
find-append (x ∷ xs) e t = ground (arith, find-append xs e t)

pub Distinct-append :
    (xs : List ℕ) (e : ℕ) → Distinct xs → elem_find xs e ≡ false → Distinct (list_append xs e)
Distinct-append [] e d out = (refl, tt)
Distinct-append (x ∷ xs) e d out =
    (ground (arith, find-append xs e x), Distinct-append xs e d.1 (ground arith))
