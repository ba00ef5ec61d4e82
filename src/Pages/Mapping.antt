-- ===== src/Pages/Mapping.antt =====
-- The recursive mapping: where the entries of a page stand.
use seeking_os.Prelude.{
  ℕ, ◌+◌, ◌*◌, ◌/◌, ◌%◌, ◌^◌, ◌<◌, ◌≡◌, refl, ◌↔◌, ◌≢◌, ◌∙◌, true, false, arith, bit_and, bit_or,
  and_shift, and_ones, or_seven, Memory, ok, ◌==◌, ==-refl, Bool, ◌||◌, ◌&&◌, ◌⊎◌, inl, inr, sym,
  leb,
}
use seeking_os.Pages.{
  Machine, pte_ptr, pde_ptr, write_entry, one_table, entry_for, is_present, addr_v2p,
  page_table_add, page_table_pte_remove,
}

directory_bits : (v : ℕ) → v < 2 ^ 32 → bit_and v 0xffc00000 ≡ v / 2 ^ 22 * 2 ^ 22
directory_bits v lt = and_shift 22 v 1023 ∙ rw (and_ones 10 (v / 2 ^ 22)) (omega arith)

table_bits : (v : ℕ) → bit_and v 0x003ff000 ≡ v / 2 ^ 12 % 1024 * 2 ^ 12
table_bits v = and_shift 12 v 1023 ∙ rw (and_ones 10 (v / 2 ^ 12)) refl

-- The entry of a page stands at its number in the table of all entries.
pub pte_ptr-page : (v : ℕ) → v < 2 ^ 32 → pte_ptr v ≡ 0xffc00000 + v / 4096 * 4
unfolding pte_ptr
pte_ptr-page v lt = rw (directory_bits v lt, table_bits v) (omega arith)

pub pde_ptr-table : (v : ℕ) → v < 2 ^ 32 → pde_ptr v ≡ 0xfffff000 + v / 2 ^ 22 * 4
unfolding pde_ptr
pde_ptr-table v lt = rw (directory_bits v lt) (omega arith)

-- For addresses of 32 bits, the directory entry of an address is the entry of its entry's own page,
-- and two addresses share an entry exactly if they lie in one page.
pub recursive_mapping :
    (v w : ℕ)
    → v < 2 ^ 32
    → w < 2 ^ 32
    → (pde_ptr v ≡ pte_ptr (pte_ptr v)) × ((pte_ptr v ≡ pte_ptr w) ↔ (v / 4096 ≡ w / 4096))
recursive_mapping v w lv lw =
    let place = pte_ptr-page v lv in
    let again = pte_ptr-page (pte_ptr v) (omega arith) in
    let other = pte_ptr-page w lw in
    let directory = pde_ptr-table v lv in (omega arith, (λ e. omega arith, λ e. omega arith))

-- The entries of the two addresses are two words: their numbers in their tables differ, or the tables.
abbrev pub Apart : Memory → ℕ → ℕ → Type 0
Apart entries v w =
    (w / 4096 % 1024 ≢ v / 4096 % 1024)
    ⊎ ((w / 2 ^ 22 ≢ v / 2 ^ 22) × (entries (pde_ptr w) / 4096 ≢ entries (pde_ptr v) / 4096))

abbrev same_word : Memory → ℕ → ℕ → Bool
same_word entries a ptr = a == ptr || (a % 4096 == ptr % 4096 && one_table entries a ptr)

write_apart :
    (entries : Memory) (ptr value a : ℕ)
    → same_word entries a ptr ≡ false
    → write_entry entries ptr value a ≡ entries a
unfolding write_entry
write_apart entries ptr value a e = rw e refl

write_there :
    (entries : Memory) (ptr value a : ℕ)
    → same_word entries a ptr ≡ true
    → write_entry entries ptr value a ≡ value
unfolding write_entry
write_there entries ptr value a e = rw e refl

Apart-words :
    (entries : Memory) (v w : ℕ)
    → v < 2 ^ 32
    → w < 2 ^ 32
    → Apart entries v w
    → same_word entries (pte_ptr w) (pte_ptr v) ≡ false
unfolding one_table
Apart-words entries v w lv lw (inl index) = ground (arith, pte_ptr-page v lv, pte_ptr-page w lw)
Apart-words entries v w lv lw (inr (region, tables)) =
    let v' : pte_ptr (pte_ptr v) ≡ pde_ptr v = sym (recursive_mapping v w lv lw).0 in
    let w' : pte_ptr (pte_ptr w) ≡ pde_ptr w = sym (recursive_mapping w v lw lv).0 in
    let apart : (pte_ptr w == pte_ptr v) ≡ false =
      ground (arith, pte_ptr-page v lv, pte_ptr-page w lw) in
    rw (v', w') (ground (arith, tables, apart))

one_word :
    (entries : Memory) (v w : ℕ)
    → v < 2 ^ 32
    → w < 2 ^ 32
    → w / 4096 % 1024 ≡ v / 4096 % 1024
    → entries (pde_ptr w) ≡ entries (pde_ptr v)
    → is_present (entries (pde_ptr v)) ≡ true
    → same_word entries (pte_ptr w) (pte_ptr v) ≡ true
unfolding one_table
one_word entries v w lv lw index same table =
    let v' : pte_ptr (pte_ptr v) ≡ pde_ptr v = sym (recursive_mapping v w lv lw).0 in
    let w' : pte_ptr (pte_ptr w) ≡ pde_ptr w = sym (recursive_mapping w v lw lv).0 in
    let offset : (pte_ptr w % 4096 == pte_ptr v % 4096) ≡ true =
      ground (arith, pte_ptr-page v lv, pte_ptr-page w lw) in
    let high : leb 0xffc00000 (pte_ptr w) ≡ true = ground (arith, pte_ptr-page w lw) in
    rw (v', w', same, table, offset, high) (ground arith)

-- What the entry of a frame is read as
entry_frame : (p : ℕ) → p < 2 ^ 32 → p % 4096 ≡ 0 → bit_and (entry_for p) 0xfffff000 ≡ p
unfolding entry_for
entry_frame p lt aligned =
    and_shift 12 (bit_or p 7) 1048575
    ∙ rw (and_ones 20 (bit_or p 7 / 2 ^ 12), or_seven p) (omega arith)

entry_present : (p : ℕ) → is_present (entry_for p) ≡ true
unfolding entry_for is_present
entry_present p = rw (or_seven p, and_ones 1 (p / 8 * 8 + 7)) (ground arith)

-- For an address of 32 bits without a mapping in a table that is there, `page_table_add` of an
-- aligned frame below 4 GiB succeeds: `addr_v2p` then takes the address to its place in the frame,
-- and so every address of the same number in a table that its directory entry shares; an address
-- whose entry has another number in its table, or stands in the table of another frame, is taken to
-- where it was before.
pub page_table_add-maps :
    (m : Machine) (v p : ℕ)
    → v < 2 ^ 32
    → p < 2 ^ 32
    → p % 4096 ≡ 0
    → is_present (m.entries (pde_ptr v)) ≡ true
    → is_present (m.entries (pte_ptr v)) ≡ false
    → (m' : Machine) × (page_table_add m v p ≡ ok m')
      × (is_present (m'.entries (pte_ptr v)) ≡ true)
      × (addr_v2p m'.entries v ≡ p + v % 4096)
      × ((w : ℕ) → w < 2 ^ 32 → Apart m.entries v w → addr_v2p m'.entries w ≡ addr_v2p m.entries w)
      × ((w : ℕ)
          → w < 2 ^ 32
          → w / 4096 % 1024 ≡ v / 4096 % 1024
          → m.entries (pde_ptr w) ≡ m.entries (pde_ptr v)
          → addr_v2p m'.entries w ≡ p + w % 4096)
unfolding page_table_add addr_v2p write_entry one_table
page_table_add-maps m v p lv lp aligned table unmapped =
    let low : bit_and v 0x00000fff ≡ v % 4096 = and_ones 12 v in
    (
      record m { entries = write_entry m.entries (pte_ptr v) (entry_for p) },
      rw (table, unmapped),
      rw ==-refl (entry_present p),
      rw (==-refl, entry_frame p lp aligned, low) (omega arith),
      λ w lw other.
          let apart = Apart-words m.entries v w lv lw other in
          rw (write_apart m.entries (pte_ptr v) (entry_for p) (pte_ptr w) apart) refl,
      λ w lw index same.
          let low' : bit_and w 0x00000fff ≡ w % 4096 = and_ones 12 w in
          let shared = one_word m.entries v w lv lw index same table in
          rw
            (
              write_there m.entries (pte_ptr v) (entry_for p) (pte_ptr w) shared,
              entry_frame p lp aligned,
              low',
            )
            (omega arith),
    )

-- Once the entry of a page is removed it is not present, and all addresses whose entry is another
-- word are taken to where they were.
pub page_table_pte_remove_lem :
    (entries : Memory) (v : ℕ)
    → v < 2 ^ 32
    → entries (pte_ptr v) < 2 ^ 32
    → (is_present (page_table_pte_remove entries v (pte_ptr v)) ≡ false)
      × ((w : ℕ)
          → w < 2 ^ 32
          → Apart entries v w
          → addr_v2p (page_table_pte_remove entries v) w ≡ addr_v2p entries w)
unfolding page_table_pte_remove addr_v2p is_present write_entry
page_table_pte_remove_lem entries v lv le =
    let e = entries (pte_ptr v) in
    let cleared : bit_and e 0xfffffffe ≡ e / 2 * 2 =
      and_shift 1 e 0x7fffffff ∙ rw (and_ones 31 (e / 2 ^ 1)) (omega arith) in
    (
      rw (==-refl, cleared, and_ones 1 (e / 2 * 2)) (ground arith),
      λ w lw other.
          let apart = Apart-words entries v w lv lw other in
          rw (write_apart entries (pte_ptr v) _ (pte_ptr w) apart) refl,
    )
