-- ===== src/Descriptors/Lifecycle.antt =====
-- A pipe from `sys_pipe` to the `sys_close` of its second end.
use seeking_os.Prelude.{
  ℕ, zero, suc, ◌+◌, ◌≤◌, ◌<◌, ◌≡◌, refl, sym, ap, ◌≢◌, ◌∙◌, inl, inr, true, false, Option, none,
  some, arith, ok, ok-injective, subst, ◌==◌, ==-refl, Bool-cases, Option-cases, ltb, leb,
  if◌then◌else◌,
}
use mathlib.Core.Option.{some-injective}
use seeking_os.IoQueue.{ioqueue_init}
use seeking_os.Files.Counts.{free_slot_of}
use seeking_os.Pages.{Machine, pf_kernel, malloc_page, mfree_page}
use seeking_os.Files.{
  FileSystem, is_none, free_fd, set_file, set_fd, get_free_slot_in_global, pcb_fd_install,
  fd_local2global, pipe_flag,
}
use seeking_os.Descriptors.{Tables, is_pipe, pipe_slot, sys_pipe, close_pipe, sys_close}

free_fd_lem :
    (n : ℕ) (table : ℕ → Option ℕ) (k i : ℕ)
    → free_fd n table k ≡ some i
    → (k ≤ i) × (i < k + n) × (is_none (table i) ≡ true)
unfolding free_fd
free_fd_lem zero table k i e = absurd cc
free_fd_lem (suc n) table k i e = elim (Bool-cases (is_none (table k))) [
  | inl free ↦
      let here : some k ≡ some i = rw (free, free_fd) at e in
      let k≡ : k ≡ i = cc in (omega arith, omega arith, rw (← k≡) free)
  | inr used ↦
      let rest : free_fd n table (k + 1) ≡ some i = rw (used, free_fd) at e in
      let (lo, hi, free) = free_fd_lem n table (k + 1) i rest in (omega arith, omega arith, free)
]

-- A pipe with `left` ends in slot `g`, of which `fd` is one
record IsEnd (t : Tables) (fd g page left : ℕ) : Type 0 where
  behind : 2 < fd
  slot : g < 32
  leads : t.files.fd_table fd ≡ some g
  flag : (t.files.file_table g).fd_flag ≡ pipe_flag
  ring : (t.files.file_table g).fd_inode ≡ some page
  ends : (t.files.file_table g).fd_pos ≡ left

end-leads :
    (t : Tables) (fd g page left : ℕ) → IsEnd t fd g page left → fd_local2global t.files fd ≡ ok g
unfolding fd_local2global
end-leads t fd g page left end =
    let inside : leb g 32 ≡ true = let b = end.slot in ground arith in
    let leads = end.leads in rw (leads, fd_local2global, inside) refl

end-is_pipe :
    (t : Tables) (fd g page left : ℕ) → IsEnd t fd g page left → is_pipe t.files fd ≡ ok true
unfolding is_pipe
end-is_pipe t fd g page left end =
    let leads = end-leads t fd g page left end in let flag = end.flag in rw (leads, flag) refl

abbrev without : Tables → ℕ → ℕ → ℕ → Tables
without t fd g left = record t {
  files = set_fd (set_file t.files g (record (t.files.file_table g) { fd_pos = left })) fd none;
}

-- The first of two ends goes, and nothing but its descriptor and the count changes.
close_first :
    (t : Tables) (fd g page : ℕ)
    → IsEnd t fd g page 2
    → sys_close t fd ≡ ok (true, without t fd g 1)
unfolding sys_close close_pipe
close_first t fd g page end =
    let behind : ltb 2 fd ≡ true = let b = end.behind in ground arith in
    let leads = end-leads t fd g page 2 end in
    let pipe = end-is_pipe t fd g page 2 end in
    let ends = end.ends in rw (behind, leads, pipe, ends) refl

abbrev without_last : Tables → ℕ → ℕ → Machine → Tables
without_last t fd g m = record t {
  files =
      set_fd (set_file t.files g (record (t.files.file_table g) { fd_pos = 0; fd_inode = none })) fd
        none;
  machine = m;
}

-- With the second end the page goes, too.
close_last :
    (t : Tables) (fd g page : ℕ) (m : Machine)
    → IsEnd t fd g page 1
    → mfree_page t.machine pf_kernel page 1 ≡ ok m
    → sys_close t fd ≡ ok (true, without_last t fd g m)
unfolding sys_close close_pipe
close_last t fd g page m end freed =
    let behind : ltb 2 fd ≡ true = let b = end.behind in ground arith in
    let leads = end-leads t fd g page 1 end in
    let pipe = end-is_pipe t fd g page 1 end in
    let ends = end.ends in
    let ring = end.ring in rw (behind, leads, pipe, ends, ring, freed, ends) refl

-- What a successful `pcb_fd_install` does
install_lem :
    (s : FileSystem) (g a : ℕ)
    → (pcb_fd_install s g).0 ≡ some a
    → (2 < a) × (is_none (s.fd_table a) ≡ true) × ((pcb_fd_install s g).1 ≡ set_fd s a (some g))
unfolding pcb_fd_install
install_lem s g a e = elim (Option-cases (free_fd 5 s.fd_table 3)) [
  | inl full ↦ let none_ : none ≡ some a = rw (full, pcb_fd_install) at e in absurd cc
  | inr (i, found) ↦
      let same : some i ≡ some a = rw (found, pcb_fd_install) at e in
      let i≡ : i ≡ a = cc in
      let (lo, hi, free) = free_fd_lem 5 s.fd_table 3 i found in
      (omega arith, rw (← i≡) free, rw (found, pcb_fd_install, i≡) refl)
]

-- The tables with a pipe in slot `g`, whose ends are `a` and `b`
abbrev with_pipe : Tables → ℕ → ℕ → ℕ → ℕ → Tables
with_pipe t g page a b = record t {
  files =
      set_fd
        (set_fd
          (set_file t.files g (record { fd_pos = 2; fd_flag = pipe_flag; fd_inode = some page })) a
          (some g))
        b (some g);
}

none_of : (o : Option ℕ) → is_none o ≡ true → o ≡ none
none_of none e = refl
none_of (some a) e = absurd cc

-- Both ends of a pipe are closed.
closes :
    (t : Tables) (g page a b : ℕ) (m : Machine)
    → g < 32
    → (2 < a) × (is_none (t.files.fd_table a) ≡ true)
    → (2 < b) × (is_none (t.files.fd_table b) ≡ true)
    → a ≢ b
    → mfree_page t.machine pf_kernel page 1 ≡ ok m
    → (t₂ t₃ : Tables) × (sys_close (with_pipe t g page a b) a ≡ ok (true, t₂))
      × (t₂.machine ≡ t.machine)
      × (fd_local2global t₂.files b ≡ ok g)
      × (sys_close t₂ b ≡ ok (true, t₃))
      × (t₃.machine ≡ m)
      × ((t₃.files.file_table g).fd_inode ≡ none)
      × ((j : ℕ) → t₃.files.fd_table j ≡ t.files.fd_table j)
closes t g page a b m lt (behind_a, free_a) (behind_b, free_b) apart freed =
    let t₁ = with_pipe t g page a b in
    let other : (a == b) ≡ false = ground (arith, apart) in
    let other' : (b == a) ≡ false = ground (arith, apart) in
    let end_a : IsEnd t₁ a g page 2 = record {
      behind = behind_a;
      slot = lt;
      leads = rw (other, ==-refl) refl;
      flag = rw (==-refl) refl;
      ring = rw (==-refl) refl;
      ends = rw (==-refl) refl;
    } in
    let t₂ = without t₁ a g 1 in
    let end_b : IsEnd t₂ b g page 1 = record {
      behind = behind_b;
      slot = lt;
      leads = rw (other', ==-refl) refl;
      flag = rw (==-refl) refl;
      ring = rw (==-refl) refl;
      ends = rw (==-refl) refl;
    } in
    (
      t₂,
      without_last t₂ b g m,
      close_first t₁ a g page end_a,
      refl,
      end-leads t₂ b g page 1 end_b,
      close_last t₂ b g page m end_b freed,
      refl,
      rw (==-refl) refl,
      λ j. elim (Bool-cases (j == b)) [
        | inl at_b ↦ let e : j ≡ b = ground arith in rw (at_b, e) (sym (none_of _ free_b))
        | inr off_b ↦ elim (Bool-cases (j == a)) [
          | inl at_a ↦ let e : j ≡ a = ground arith in rw (off_b, at_a, e) (sym (none_of _ free_a))
          | inr off_a ↦ rw (off_b, off_a) refl
        ]
      ],
    )

abbrev ring_made : Tables → Machine → ℕ → Tables
ring_made t m page = record t {
  machine = m;
  rings = λ p. if p == page then ioqueue_init (t.rings page) else t.rings p;
}

slot_made :
    (t : Tables) (m : Machine) (g page a b : ℕ)
    → (pipe_slot (record t { machine = m }) g page).0 ≡ (some a, some b)
    → (2 < a)
      × (is_none (t.files.fd_table a) ≡ true)
      × (2 < b)
      × (is_none (t.files.fd_table b) ≡ true)
      × (a ≢ b)
      × ((pipe_slot (record t { machine = m }) g page).1
          ≡ with_pipe (ring_made t m page) g page a b)
unfolding pipe_slot
slot_made t m g page a b e =
    let s = set_file t.files g (record { fd_pos = 2; fd_flag = pipe_flag; fd_inode = some page }) in
    let (behind_a, free_a, first) = install_lem s g a (ap (λ r. r.0) e) in
    let second_result : (pcb_fd_install (set_fd s a (some g)) g).0 ≡ some b =
      rw first at (ap (λ r. r.1) e) in
    let (behind_b, free_b, second) = install_lem (set_fd s a (some g)) g b second_result in
    elim (Bool-cases (b == a)) [
      | inl same ↦ let used : false ≡ true = rw same at free_b in absurd cc
      | inr other ↦ (
        behind_a,
        free_a,
        behind_b,
        rw other at free_b,
        λ eq. ground arith,
        rw (first, second) refl,
      )
    ]

-- After a `sys_pipe` that returns two descriptors, `sys_close` of the first leaves the pages and
-- the second, which still leads to the pipe, and that of the second gives the page back, if
-- `mfree_page` does, with the slot and all descriptors as before.
pub pipe_then_close :
    (t t₁ : Tables) (g page a b : ℕ) (m m₂ : Machine)
    → get_free_slot_in_global t.files ≡ some g
    → malloc_page t.machine pf_kernel 1 ≡ ok (some page, m)
    → sys_pipe t ≡ ok (some (some a, some b), t₁)
    → mfree_page m pf_kernel page 1 ≡ ok m₂
    → (t₂ t₃ : Tables) × (sys_close t₁ a ≡ ok (true, t₂))
      × (t₂.machine ≡ t₁.machine)
      × (fd_local2global t₂.files b ≡ ok g)
      × (sys_close t₂ b ≡ ok (true, t₃))
      × (t₃.machine ≡ m₂)
      × ((t₃.files.file_table g).fd_inode ≡ none)
      × ((j : ℕ) → t₃.files.fd_table j ≡ t.files.fd_table j)
unfolding sys_pipe
pipe_then_close t t₁ g page a b m m₂ slot got ran freed =
    let (lt, free) = free_slot_of t.files g slot in
    let made : ok (
      some (pipe_slot (record t { machine = m }) g page).0,
      (pipe_slot (record t { machine = m }) g page).1,
    )
        ≡ ok (some (some a, some b), t₁) =
      rw (slot, sys_pipe, got) at ran in
    let pair = ok-injective made in
    let fds = some-injective _ _ (ap (λ r. r.0) pair) in
    let (behind_a, free_a, behind_b, free_b, apart, tables) = slot_made t m g page a b fds in
    let is : with_pipe (ring_made t m page) g page a b ≡ t₁ = sym tables ∙ ap (λ r. r.1) pair in
    let (t₂, t₃, closed_a, same, leads, closed_b, machine, gone, fds_back) =
      closes (ring_made t m page) g page a b m₂ lt (behind_a, free_a) (behind_b, free_b) apart
        freed in
    (
      t₂,
      t₃,
      subst (λ x. sys_close x a ≡ ok (true, t₂)) is closed_a,
      same ∙ ap (λ x. x.machine) is,
      leads,
      closed_b,
      machine,
      gone,
      fds_back,
    )
