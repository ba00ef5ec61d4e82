-- ===== src/KList/Refine.antt =====
-- The operations on links implement those on the list of the nodes.
use seeking_os.Prelude.{
  ℕ, zero, suc, ◌+◌, ◌<◌, ◌^◌, ◌≡◌, refl, Bool, true, false, Option, none, some, List, [], ◌∷◌,
  ◌++◌, arith, ok, length, ◌==◌, if◌then◌else◌, add32, ==-refl,
}
use seeking_os.Thread.Queue
use seeking_os.KList.{
  Links, KernelList, list_init, list_push, list_append, list_remove, list_pop, list_empty,
  traverse_from, list_traversal, find_from, elem_find, len_from, list_len,
}
use seeking_os.KList.Chain.{
  find-both, Chain, Apart, Off, Apart-end, push-Chain, append-Chain, remove-Chain,
}

-- The links make up the list of these nodes, no two of them the same.
pub record Linked (l : Links) (q : KernelList) (xs : List ℕ) : Type 0 where
  pub chain : Chain l q.head xs q.tail
  pub apart : Apart q.head xs q.tail

Apart-first : (xs : List ℕ) (p t e : ℕ) → Apart p xs t → Off (t ∷ xs) e → Apart e xs t
Apart-first [] p t e apart off = ground arith
Apart-first (x ∷ xs) p t e apart off = (ground arith, ground arith, apart.2)

Apart-push : (xs : List ℕ) (p t e : ℕ) → Apart p xs t → Off (p ∷ t ∷ xs) e → Apart p (e ∷ xs) t
Apart-push [] p t e apart off = (apart, ground arith, ground arith)
Apart-push (x ∷ xs) p t e apart off =
    (apart.0, ground (arith, apart.1), (ground arith, ground arith, apart.2))

Apart-append :
    (xs : List ℕ) (p t e : ℕ) → Apart p xs t → Off (p ∷ t ∷ xs) e → Apart p (xs ++ (e ∷ [])) t
Apart-append [] p t e apart off = (apart, ground arith, ground arith)
Apart-append (x ∷ xs) p t e apart off = (
  apart.0,
  ground (arith, apart.1, find-both xs (e ∷ []) p),
  Apart-append xs x t e apart.2 (ground arith),
)

Apart-remove : (xs ys : List ℕ) (p t e : ℕ) → Apart p (xs ++ (e ∷ ys)) t → Apart p (xs ++ ys) t
Apart-remove [] [] p t e apart = apart.0
Apart-remove [] (y ∷ ys) p t e apart = (apart.0, ground (arith, apart.1), apart.2.2)
Apart-remove (x ∷ xs) ys p t e apart = (
  apart.0,
  ground (arith, apart.1, find-both xs (e ∷ ys) p, find-both xs ys p),
  Apart-remove xs ys x t e apart.2,
)

-- `list_init` makes two nodes the ends of an empty list, whatever their links were.
list_init-Linked :
    (l : Links) (q : KernelList) → Apart q.head [] q.tail → Linked (list_init l q) q []
unfolding list_init
list_init-Linked l q apart = record {
  chain = (ground (arith, apart), ground (arith, apart));
  apart = apart;
}

-- For the two ends of a list and the nodes between them, all distinct, `list_init` makes the ends
-- an empty list, whatever their links were, and a node that is not in the list yet is put in front
-- of its nodes by `list_push` and behind them by `list_append`.
pub insertions-Linked :
    (any l : Links) (q : KernelList) (xs : List ℕ) (e : ℕ)
    → Linked l q xs
    → Off (q.head ∷ q.tail ∷ xs) e
    → Linked (list_init any q) q []
      × Linked (list_push l q e) q (e ∷ xs)
      × Linked (list_append l q e) q (xs ++ (e ∷ []))
unfolding list_push list_append
insertions-Linked any l q xs e k off = (
  list_init-Linked any q (Apart-end xs q.head q.tail k.apart),
  record {
    chain = push-Chain xs l q.head q.tail e k.chain k.apart off;
    apart = Apart-push xs q.head q.tail e k.apart off;
  },
  record {
    chain = append-Chain xs l q.head q.tail e k.chain k.apart off;
    apart = Apart-append xs q.head q.tail e k.apart off;
  },
)

-- What `list_pop` returns from a list of these nodes, and leaves.
abbrev pub Popped : Links → KernelList → List ℕ → Option ℕ × Links → Type 0
Popped l q [] r = r ≡ (none, l)
Popped l q (x ∷ xs) r = (r.0 ≡ some x) × Linked r.1 q xs

-- `list_remove` takes a node out of its list and leaves the others in order.
pub list_remove-Linked :
    (l : Links) (q : KernelList) (xs ys : List ℕ) (e : ℕ)
    → Linked l q (xs ++ (e ∷ ys))
    → Linked (list_remove l e) q (xs ++ ys)
list_remove-Linked l q xs ys e k = record {
  chain = remove-Chain xs ys l q.head q.tail e k.chain k.apart;
  apart = Apart-remove xs ys q.head q.tail e k.apart;
}

-- `list_pop` takes the first node of a list and returns it, or returns NULL and changes nothing if
-- there is none.
pub list_pop-Popped :
    (xs : List ℕ) (l : Links) (q : KernelList) → Linked l q xs → Popped l q xs (list_pop l q)
unfolding list_pop list_empty
list_pop-Popped [] l q k =
    let none_there : (l.next q.head == q.tail) ≡ true = ground (arith, k.chain.0) in
    rw none_there refl
list_pop-Popped (x ∷ xs) l q k =
    let first : l.next q.head ≡ x = k.chain.0 in
    let some_there : (x == q.tail) ≡ false = Apart-end xs x q.tail k.apart.2 in
    rw (first, some_there) (refl, list_remove-Linked l q [] xs x k)

-- The first node that passes the test
abbrev pub first_such : (ℕ → Bool) → List ℕ → Option ℕ
first_such func [] = none
first_such func (x ∷ xs) = let rest = first_such func xs in if func x then some x else rest

find_from_lem :
    (xs : List ℕ) (n : ℕ) (l : Links) (p t obj : ℕ)
    → Chain l p xs t
    → Apart p xs t
    → length xs < n
    → find_from n l t obj (l.next p) ≡ ok (Queue.elem_find xs obj)
unfolding find_from
find_from_lem xs zero l p t obj c a lt = absurd (omega arith)
find_from_lem [] (suc n) l p t obj c a lt = rw (c.0, ==-refl) refl
find_from_lem (x ∷ xs) (suc n) l p t obj c a lt =
    let go : (x == t) ≡ false = Apart-end xs x t a.2 in
    let rest = find_from_lem xs n l x t obj c.2 a.2 (omega arith) in
    rw (c.0, go, rest) (ground arith)

traverse_from_lem :
    (xs : List ℕ) (n : ℕ) (l : Links) (p t : ℕ) (func : ℕ → Bool)
    → Chain l p xs t
    → Apart p xs t
    → length xs < n
    → traverse_from n l t func (l.next p) ≡ ok (first_such func xs)
unfolding traverse_from
traverse_from_lem xs zero l p t func c a lt = absurd (omega arith)
traverse_from_lem [] (suc n) l p t func c a lt = rw (c.0, ==-refl) refl
traverse_from_lem (x ∷ xs) (suc n) l p t func c a lt =
    let go : (x == t) ≡ false = Apart-end xs x t a.2 in
    let rest = traverse_from_lem xs n l x t func c.2 a.2 (omega arith) in
    rw (c.0, go, rest) (ground arith)

len_from_lem :
    (xs : List ℕ) (n : ℕ) (l : Links) (p t start total : ℕ)
    → Chain l p xs t
    → Apart p xs t
    → length xs < n
    → start + length xs ≡ total
    → total < 2 ^ 32
    → len_from n l t (l.next p) start ≡ ok total
unfolding len_from
len_from_lem xs zero l p t start total c a lt e small = absurd (omega arith)
len_from_lem [] (suc n) l p t start total c a lt e small =
    let end : start ≡ total = omega arith in rw (c.0, ==-refl, end) refl
len_from_lem (x ∷ xs) (suc n) l p t start total c a lt e small =
    let go : (x == t) ≡ false = Apart-end xs x t a.2 in
    rw (c.0, go)
      (len_from_lem xs n l x t (add32 start 1) total c.2 a.2 (omega arith) (omega arith) small)

empty_lem :
    (xs : List ℕ) (l : Links) (q : KernelList)
    → Linked l q xs
    → list_empty l q ≡ Queue.list_empty xs
unfolding list_empty
empty_lem [] l q k = ground (arith, k.chain.0)
empty_lem (x ∷ xs) l q k = rw k.chain.0 (Apart-end xs x q.tail k.apart.2)

-- On a list of fewer nodes than the fuel, and of fewer than 2 to the 32, `list_empty`, `elem_find`,
-- `list_traversal` and `list_len` compute what their names say of the list of the nodes.
pub searches_lem :
    (xs : List ℕ) (n : ℕ) (l : Links) (q : KernelList) (obj : ℕ) (func : ℕ → Bool)
    → Linked l q xs
    → length xs < n
    → length xs < 2 ^ 32
    → (list_empty l q ≡ Queue.list_empty xs)
      × (elem_find n l q obj ≡ ok (Queue.elem_find xs obj))
      × (list_traversal n l q func ≡ ok (first_such func xs))
      × (list_len n l q ≡ ok (length xs))
unfolding elem_find list_traversal list_len
searches_lem xs n l q obj func k lt small = (
  empty_lem xs l q k,
  find_from_lem xs n l q.head q.tail obj k.chain k.apart lt,
  rw (empty_lem xs l q k, traverse_from_lem xs n l q.head q.tail func k.chain k.apart lt)
      (no_matter xs func),
  len_from_lem xs n l q.head q.tail 0 (length xs) k.chain k.apart lt (omega arith) small,
)
  where
    no_matter :
        (xs : List ℕ) (func : ℕ → Bool)
        → (if Queue.list_empty xs then ok none else ok (first_such func xs))
          ≡ ok (first_such func xs)
    no_matter [] func = refl
    no_matter (x ∷ xs) func = refl
