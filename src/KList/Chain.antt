-- ===== src/KList/Chain.antt =====
-- The nodes of a list in order, and what insertion and removal do to them.
use seeking_os.Prelude.{ℕ, ◌≡◌, refl, true, false, ◌||◌, List, [], ◌∷◌, ◌++◌, arith, ◌==◌}
use seeking_os.Thread.Queue
use seeking_os.KList.{Links, list_insert_before, list_remove}

-- From `p` the links lead through `xs` to `t`, and back.
abbrev pub Chain : Links → ℕ → List ℕ → ℕ → Type 0
Chain l p [] t = (l.next p ≡ t) × (l.prev t ≡ p)
Chain l p (x ∷ xs) t = (l.next p ≡ x) × (l.prev x ≡ p) × Chain l x xs t

-- The node is none of these.
abbrev pub Off : List ℕ → ℕ → Type 0
Off xs e = Queue.elem_find xs e ≡ false

-- No two nodes are the same.
abbrev pub Apart : ℕ → List ℕ → ℕ → Type 0
Apart p [] t = (p == t) ≡ false
Apart p (x ∷ xs) t = ((p == t) ≡ false) × Off (x ∷ xs) p × Apart x xs t

-- A chain whose links are not touched stays.
pub frame :
    (xs : List ℕ) (l l' : Links) (p t : ℕ)
    → Chain l p xs t
    → ((a : ℕ) → Queue.elem_find (p ∷ xs) a ≡ true → l'.next a ≡ l.next a)
    → ((a : ℕ) → Queue.elem_find (t ∷ xs) a ≡ true → l'.prev a ≡ l.prev a)
    → Chain l' p xs t
frame [] l l' p t c nexts prevs = (ground (arith, c.0, nexts p), ground (arith, c.1, prevs t))
frame (x ∷ xs) l l' p t c nexts prevs = (
  ground (arith, c.0, nexts p),
  ground (arith, c.1, prevs x),
  frame xs l l' x t c.2 (λ a h. nexts a (ground arith)) (λ a h. prevs a (ground arith)),
)

-- The last node
pub last_in :
    (xs : List ℕ) (l : Links) (p t : ℕ)
    → Chain l p xs t
    → Queue.elem_find (p ∷ xs) (l.prev t) ≡ true
last_in [] l p t c = ground (arith, c.1)
last_in (x ∷ xs) l p t c = ground (arith, last_in xs l x t c.2)

pub Apart-end : (xs : List ℕ) (p t : ℕ) → Apart p xs t → (p == t) ≡ false
Apart-end [] p t apart = apart
Apart-end (x ∷ xs) p t apart = apart.0

pub append-Chain :
    (xs : List ℕ) (l : Links) (p t e : ℕ)
    → Chain l p xs t
    → Apart p xs t
    → Off (p ∷ t ∷ xs) e
    → Chain (list_insert_before l t e) p (xs ++ (e ∷ [])) t
unfolding list_insert_before
append-Chain [] l p t e c apart off =
    (ground (arith, c.0, c.1), ground (arith, c.0, c.1), (ground arith, ground arith))
append-Chain (x ∷ xs) l p t e c apart off = (
  ground (arith, c.0, apart.0, apart.1, last_in xs l x t c.2),
  ground (arith, c.1, Apart-end xs x t apart.2),
  append-Chain xs l x t e c.2 apart.2 (ground arith),
)

off_first :
    (xs : List ℕ) (x t : ℕ)
    → Apart x xs t
    → (a : ℕ) → Queue.elem_find (t ∷ xs) a ≡ true
    → (a == x) ≡ false
off_first [] x t apart a h = ground arith
off_first (y ∷ ys) x t apart a h = ground (arith, apart.0, apart.1)

pub push-Chain :
    (xs : List ℕ) (l : Links) (p t e : ℕ)
    → Chain l p xs t
    → Apart p xs t
    → Off (p ∷ t ∷ xs) e
    → Chain (list_insert_before l (l.next p) e) p (e ∷ xs) t
unfolding list_insert_before
push-Chain [] l p t e c apart off =
    (ground (arith, c.0, c.1), ground (arith, c.0, c.1), (ground (arith, c.0), ground (arith, c.0)))
push-Chain (x ∷ xs) l p t e c apart off =
    let end = Apart-end xs x t apart.2 in
    (
      ground (arith, c.0, c.1, apart.1),
      ground (arith, c.0, c.1, apart.1),
      (
        ground (arith, c.0, c.1, apart.1),
        ground (arith, c.0, c.1),
        frame xs l (list_insert_before l (l.next p) e) x t c.2
            (λ a h. ground (arith, c.0, c.1, apart.1))
            (λ a h. ground (arith, c.0, c.1, off_first xs x t apart.2 a)),
      ),
    )

-- The first node behind `p`
first_in :
    (xs : List ℕ) (l : Links) (p t : ℕ)
    → Chain l p xs t
    → Queue.elem_find (t ∷ xs) (l.next p) ≡ true
first_in [] l p t c = ground (arith, c.0)
first_in (x ∷ xs) l p t c = ground (arith, c.0)

-- The node before one of the chain, and the one behind it
prev_in :
    (xs ys : List ℕ) (l : Links) (p t e : ℕ)
    → Chain l p (xs ++ (e ∷ ys)) t
    → Queue.elem_find (p ∷ xs) (l.prev e) ≡ true
prev_in [] ys l p t e c = ground (arith, c.1)
prev_in (x ∷ xs) ys l p t e c = ground (arith, prev_in xs ys l x t e c.2)

next_in :
    (xs ys : List ℕ) (l : Links) (p t e : ℕ)
    → Chain l p (xs ++ (e ∷ ys)) t
    → Queue.elem_find (t ∷ ys) (l.next e) ≡ true
next_in [] ys l p t e c = first_in ys l e t c.2
next_in (x ∷ xs) ys l p t e c = next_in xs ys l x t e c.2

pub find-both :
    (xs ys : List ℕ) (a : ℕ)
    → Queue.elem_find (xs ++ ys) a ≡ (Queue.elem_find xs a || Queue.elem_find ys a)
find-both [] ys a = refl
find-both (x ∷ xs) ys a = ground (arith, find-both xs ys a)

Apart-Off : (xs : List ℕ) (p t : ℕ) → Apart p xs t → Off xs p
Apart-Off [] p t apart = refl
Apart-Off (x ∷ xs) p t apart = apart.1

-- A node of a chain comes apart from what is behind it.
pub remove-Chain :
    (xs ys : List ℕ) (l : Links) (p t e : ℕ)
    → Chain l p (xs ++ (e ∷ ys)) t
    → Apart p (xs ++ (e ∷ ys)) t
    → Chain (list_remove l e) p (xs ++ ys) t
unfolding list_remove
remove-Chain [] [] l p t e c apart =
    (ground (arith, c.0, c.1, c.2.0, c.2.1), ground (arith, c.0, c.1, c.2.0, c.2.1))
remove-Chain [] (y ∷ ys) l p t e c apart = (
  ground (arith, c.0, c.1, c.2.0),
  ground (arith, c.0, c.1, c.2.0),
  frame ys l (list_remove l e) y t c.2.2 (λ a h. ground (arith, c.0, c.1, apart.1))
      (λ a h. ground (arith, c.2.0, off_first ys y t apart.2.2 a)),
)
remove-Chain (x ∷ xs) ys l p t e c apart =
    let before = prev_in xs ys l x t e c.2 in
    let behind = next_in xs ys l x t e c.2 in
    let off = Apart-Off (xs ++ (e ∷ ys)) x t apart.2 in
    let end = Apart-end (xs ++ (e ∷ ys)) x t apart.2 in
    (
      ground (arith, c.0, apart.1, find-both xs (e ∷ ys) p),
      ground (arith, c.1, find-both xs (e ∷ ys) x),
      remove-Chain xs ys l x t e c.2 apart.2,
    )
