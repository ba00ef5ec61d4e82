-- ===== src/PathName/Parse.antt =====
-- `path_parse` splits off the first name of a path.
use seeking_os.Prelude.{
  ℕ, zero, suc, ◌+◌, ◌<◌, ◌≡◌, refl, ◌≢◌, ◌⊎◌, inl, inr, ◌∙◌, true, false, not, ◌&&◌, Option, none,
  some, List, [], ◌∷◌, ◌++◌, arith, Memory, store, ok, length, length-append, All, ◌==◌,
  if◌then◌else◌, ==-refl,
}
use seeking_os.Str.Cstr.{IsCstr, IsCstr-same}
use seeking_os.Str.Copy.{SameOutside, Apart}
use seeking_os.PathName.{skip_slashes, copy_name, path_parse}

abbrev pub slashes : ℕ → List ℕ
slashes zero = []
slashes (suc k) = b'/' ∷ slashes k

-- What may stand behind a name: nothing, or a slash and more.
abbrev pub IsTail : List ℕ → Type 0
IsTail [] = Unit
IsTail (c ∷ cs) = c ≡ b'/'

-- The characters from `p` on
abbrev pub Stored : Memory → ℕ → List ℕ → Type 0
Stored m p [] = Unit
Stored m p (x ∷ xs) = (m p ≡ x) × Stored m (p + 1) xs

abbrev pub rest_of : ℕ → List ℕ → Option ℕ
rest_of end [] = none
rest_of end (c ∷ cs) = some end

skip_slashes_lem :
    (k n : ℕ) (m : Memory) (p : ℕ) (xs : List ℕ)
    → IsCstr m p (slashes k ++ xs)
    → m (p + k) ≢ b'/'
    → k < n
    → skip_slashes n m p ≡ ok (p + k)
unfolding skip_slashes
skip_slashes_lem k zero m p xs s stop lt = absurd (omega arith)
skip_slashes_lem zero (suc n) m p xs s stop lt = ground arith
skip_slashes_lem (suc k) (suc n) m p xs s stop lt =
    ground (arith, skip_slashes_lem k n m (p + 1) xs s.2)

at_tail :
    (m : Memory) (p : ℕ) (tail : List ℕ)
    → IsCstr m p tail
    → IsTail tail
    → (not (m p == b'/') && not (m p == 0)) ≡ false
at_tail m p [] s t = ground arith
at_tail m p (c ∷ cs) s t = ground (arith, s.0)

outside :
    (m m' : Memory) (p dst n : ℕ)
    → SameOutside (dst + 1) n (store m dst (m p)) m'
    → SameOutside dst (suc n) m m'
outside m m' p dst n same a (inl lo) = same a (inl (omega arith)) ∙ ground arith
outside m m' p dst n same a (inr hi) = same a (inr (omega arith)) ∙ ground arith

copy_name_lem :
    (name tail : List ℕ) (n : ℕ) (m : Memory) (p dst : ℕ)
    → IsCstr m p (name ++ tail)
    → All (λ c. c ≢ b'/') name
    → IsTail tail
    → Apart dst (length name) p (length name + length tail + 1)
    → length name < n
    → (m' : Memory) × (copy_name n m p dst ≡ ok (p + length name, m'))
      × Stored m' dst name
      × SameOutside dst (length name) m m'
unfolding copy_name
copy_name_lem name tail zero m p dst s plain t apart lt = absurd (omega arith)
copy_name_lem [] tail (suc n) m p dst s plain t apart lt =
    (m, rw (at_tail m p tail s t) (ground arith), tt, λ a out. refl)
copy_name_lem (x ∷ name) tail (suc n) m p dst s plain t apart lt =
    let m₁ = store m dst (m p) in
    let s₁ =
      IsCstr-same (name ++ tail) m m₁ (p + 1) s.2
        (λ a lo hi. ground (arith, length-append name tail)) in
    let (m', ran, stored, same) =
      copy_name_lem name tail n m₁ (p + 1) (dst + 1) s₁ plain.1 t (ground arith) (omega arith) in
    let go : (not (m p == b'/') && not (m p == 0)) ≡ true = ground (arith, s.0, plain.0, s.1) in
    (
      m',
      rw (go, ran) (ground arith),
      (same dst (inl (omega arith)) ∙ rw ==-refl s.0, stored),
      outside m m' p dst (length name) same,
    )

behind_slashes :
    (k : ℕ) (m : Memory) (p : ℕ) (xs : List ℕ) → IsCstr m p (slashes k ++ xs) → IsCstr m (p + k) xs
behind_slashes zero m p xs s = let e : p + 0 ≡ p = omega arith in rw e s
behind_slashes (suc k) m p xs s =
    let e : p + suc k ≡ p + 1 + k = omega arith in rw e (behind_slashes k m (p + 1) xs s.2)

behind_name :
    (name tail : List ℕ) (m : Memory) (p : ℕ)
    → IsCstr m p (name ++ tail)
    → IsCstr m (p + length name) tail
behind_name [] tail m p s = let e : p + 0 ≡ p = omega arith in rw e s
behind_name (x ∷ name) tail m p s =
    let e : p + suc (length name) ≡ p + 1 + length name = omega arith in
    rw e (behind_name name tail m (p + 1) s.2)

-- A store apart from the tail leaves it.
tail_stays :
    (name tail : List ℕ) (m m' : Memory) (k path store_at : ℕ)
    → IsCstr m (path + k + length name) tail
    → Apart store_at (length name) path (k + length name + length tail + 1)
    → SameOutside store_at (length name) m m'
    → IsCstr m' (path + k + length name) tail
tail_stays name tail m m' k path store_at s (inl before) same =
    IsCstr-same tail m m' (path + k + length name) s (λ a lo hi. same a (inr (omega arith)))
tail_stays name tail m m' k path store_at s (inr behind) same =
    IsCstr-same tail m m' (path + k + length name) s (λ a lo hi. same a (inl (omega arith)))

start_of :
    (k n : ℕ) (m : Memory) (path : ℕ) (xs : List ℕ)
    → IsCstr m path (slashes k ++ xs)
    → m (path + k) ≢ b'/'
    → k < n
    → (if m path == b'/' then skip_slashes n m (path + 1) else ok path) ≡ ok (path + k)
start_of zero n m path xs s stop lt = ground arith
start_of (suc k) n m path xs s stop lt =
    let e : path + suc k ≡ path + 1 + k = omega arith in
    ground (arith, s.0, skip_slashes_lem k n m (path + 1) xs s.2)

-- No slash stands where a name starts, or the path ends.
no_slash :
    (name tail : List ℕ) (m : Memory) (p : ℕ)
    → IsCstr m p (name ++ tail)
    → All (λ c. c ≢ b'/') name
    → (name ≢ []) ⊎ (tail ≡ [])
    → m p ≢ b'/'
no_slash [] [] m p s plain starts = ground (arith, s)
no_slash [] (c ∷ tail) m p s plain (inl some_name) = absurd (some_name refl)
no_slash [] (c ∷ tail) m p s plain (inr none_left) = cc
no_slash (x ∷ name) tail m p s plain starts = λ e. plain.0 (ground (arith, s.0, e))

end_of :
    (m : Memory) (p : ℕ) (tail : List ℕ)
    → IsCstr m p tail
    → IsTail tail
    → (if m p == 0 then none else some p) ≡ rest_of p tail
end_of m p [] s t = ground arith
end_of m p (c ∷ tail) s t = ground (arith, s.0)

-- With fuel beyond a path of slashes, a name and a rest, and a store apart from the path,
-- `path_parse` stores the name and nothing else, with no NUL behind it, and returns the rest, which
-- is NULL if it is empty.
pub path_parse_lem :
    (k : ℕ) (name tail : List ℕ) (n : ℕ) (m : Memory) (path store_at : ℕ)
    → IsCstr m path (slashes k ++ (name ++ tail))
    → All (λ c. c ≢ b'/') name
    → IsTail tail
    → (name ≢ []) ⊎ (tail ≡ [])
    → Apart store_at (length name) path (k + length name + length tail + 1)
    → k + length name < n
    → (m' : Memory) × (path_parse n m path store_at
        ≡ ok (rest_of (path + k + length name) tail, m'))
      × Stored m' store_at name
      × SameOutside store_at (length name) m m'
unfolding path_parse
path_parse_lem k name tail n m path store_at s plain t starts apart lt =
    let here = behind_slashes k m path (name ++ tail) s in
    let stop = no_slash name tail m (path + k) here plain starts in
    let (m', ran, stored, same) =
      copy_name_lem name tail n m (path + k) store_at here plain t (ground arith) (omega arith) in
    let end =
      end_of m' (path + k + length name) tail
        (tail_stays name tail m m' k path store_at (behind_name name tail m (path + k) here) apart
          same)
        t in
    (m', rw (start_of k n m path (name ++ tail) s stop (omega arith), ran, end) refl, stored, same)
