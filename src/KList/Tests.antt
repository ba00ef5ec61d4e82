-- ===== src/KList/Tests.antt =====
-- A list of the nodes 10 and 20 for lib/kernel/list.c, with its head at 1 and its tail at 2.
use seeking_os.Prelude.{◌≡◌, refl, true, false, some, [], ◌∷◌, arith, ok, ◌==◌, if◌then◌else◌}
use seeking_os.KList.{
  Links, KernelList, list_init, list_push, list_append, list_remove, list_empty, list_traversal,
  elem_find, list_len,
}
use seeking_os.KList.Refine.{Linked, insertions-Linked, list_remove-Linked, searches_lem}

abbrev two : Links
two = record {
  prev = λ a. if a == 10 then 1 else if a == 20 then 10 else if a == 2 then 20 else 0;
  next = λ a. if a == 1 then 10 else if a == 10 then 20 else if a == 20 then 2 else 0;
}

abbrev queue : KernelList
queue = record { head = 1; tail = 2 }

two-Linked : Linked two queue (10 ∷ 20 ∷ [])
two-Linked = record {
  chain = (refl, refl, (refl, refl, (refl, refl)));
  apart = (refl, refl, (refl, refl, refl));
}

abbrev unset : Links
unset = record { prev = λ a. 7; next = λ a. a }

insertions-Linked_example :
    Linked (list_init unset queue) queue []
    × Linked (list_push two queue 30) queue (30 ∷ 10 ∷ 20 ∷ [])
    × Linked (list_append two queue 30) queue (10 ∷ 20 ∷ 30 ∷ [])
insertions-Linked_example = insertions-Linked unset two queue (10 ∷ 20 ∷ []) 30 two-Linked refl

list_remove-Linked_example : Linked (list_remove two 20) queue (10 ∷ [])
list_remove-Linked_example = list_remove-Linked two queue (10 ∷ []) [] 20 two-Linked

searches_lem_example :
    (list_empty two queue ≡ false)
    × (elem_find 3 two queue 20 ≡ ok true)
    × (list_traversal 3 two queue (λ a. a == 20) ≡ ok (some 20))
    × (list_len 3 two queue ≡ ok 2)
searches_lem_example =
    searches_lem (10 ∷ 20 ∷ []) 3 two queue 20 (λ a. a == 20) two-Linked (omega arith) (omega arith)
