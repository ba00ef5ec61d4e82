-- ===== src/KList.antt =====
-- lib/kernel/list.c: doubly linked lists, through the links of their nodes. A node is its address, NULL
-- is 0, and a list is the addresses of its `head` and `tail`. Interrupts are off while links change.
pub mod Chain
pub mod Refine
mod Tests
use seeking_os.Prelude.{
  ℕ, zero, suc, ◌+◌, Bool, true, false, not, Option, none, some, Outcome, ok, out_of_fuel, ◌==◌,
  if◌then◌else◌, add32,
}

-- `prev` and `next` of every node
pub record Links : Type 0 where
  pub prev : ℕ → ℕ
  pub next : ℕ → ℕ

abbrev pub set_prev : Links → ℕ → ℕ → Links
set_prev l node to = record l { prev = λ a. if a == node then to else l.prev a }

abbrev pub set_next : Links → ℕ → ℕ → Links
set_next l node to = record l { next = λ a. if a == node then to else l.next a }

pub record KernelList : Type 0 where
  pub head : ℕ
  pub tail : ℕ

unfoldable pub list_init : Links → KernelList → Links
list_init l list =
    set_next (set_prev (set_next (set_prev l list.head 0) list.head list.tail) list.tail list.head)
      list.tail 0

unfoldable pub list_insert_before : Links → ℕ → ℕ → Links
list_insert_before l before elem =
    let l₁ = set_next l (l.prev before) elem in
    let l₂ = set_prev l₁ elem (l₁.prev before) in
    let l₃ = set_next l₂ elem before in set_prev l₃ before elem

unfoldable pub list_push : Links → KernelList → ℕ → Links
list_push l plist elem = list_insert_before l (l.next plist.head) elem

unfoldable pub list_append : Links → KernelList → ℕ → Links
list_append l plist elem = list_insert_before l plist.tail elem

unfoldable pub list_remove : Links → ℕ → Links
list_remove l pelem =
    let l₁ = set_next l (l.prev pelem) (l.next pelem) in set_prev l₁ (l₁.next pelem) (l₁.prev pelem)

unfoldable pub list_empty : Links → KernelList → Bool
list_empty l plist = l.next plist.head == plist.tail

-- The element, with `none` for NULL, and the links
unfoldable pub list_pop : Links → KernelList → Option ℕ × Links
list_pop l plist =
    if list_empty l plist
    then (none, l)
    else (some (l.next plist.head), list_remove l (l.next plist.head))

-- The loop of `list_traversal`, whose callback is a test, from the node `elem`
unfoldable pub traverse_from : ℕ → Links → ℕ → (ℕ → Bool) → ℕ → Outcome (Option ℕ)
traverse_from zero l tail func elem = out_of_fuel
traverse_from (suc n) l tail func elem =
    let rest = traverse_from n l tail func (l.next elem) in
    if not (elem == tail) then (if func elem then ok (some elem) else rest) else ok none

unfoldable pub list_traversal : ℕ → Links → KernelList → (ℕ → Bool) → Outcome (Option ℕ)
list_traversal n l plist func =
    let found = traverse_from n l plist.tail func (l.next plist.head) in
    if list_empty l plist then ok none else found

unfoldable pub find_from : ℕ → Links → ℕ → ℕ → ℕ → Outcome Bool
find_from zero l tail obj_elem mov = out_of_fuel
find_from (suc n) l tail obj_elem mov =
    let rest = find_from n l tail obj_elem (l.next mov) in
    if not (mov == tail) then (if mov == obj_elem then ok true else rest) else ok false

unfoldable pub elem_find : ℕ → Links → KernelList → ℕ → Outcome Bool
elem_find n l plist obj_elem = find_from n l plist.tail obj_elem (l.next plist.head)

unfoldable pub len_from : ℕ → Links → ℕ → ℕ → ℕ → Outcome ℕ
len_from zero l tail elem length = out_of_fuel
len_from (suc n) l tail elem length =
    let rest = len_from n l tail (l.next elem) (add32 length 1) in
    if not (elem == tail) then rest else ok length

unfoldable pub list_len : ℕ → Links → KernelList → Outcome ℕ
list_len n l plist = len_from n l plist.tail (l.next plist.head) 0
