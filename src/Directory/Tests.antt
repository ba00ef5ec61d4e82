-- ===== src/Directory/Tests.antt =====
-- A directory of one block, with `.`, `..` and the file `a`, which is looked for.
use seeking_os.Prelude.{
  ℕ, zero, suc, ◌+◌, ◌*◌, ◌≤◌, ◌<◌, ◌≡◌, refl, ◌⊎◌, inl, inr, Bool, true, false, Bool-cases, List,
  [], ◌∷◌, arith, Memory, Option, none, some, Outcome, ok, panic, out_of_fuel, ◌==◌, ◌||◌,
  if◌then◌else◌,
}
use seeking_os.Str.{strcmp, compare_strings, memcpy, copy}
use seeking_os.Str.Cstr.{IsCstr}
use seeking_os.Inode.{Inode, read_sectors, sector_size}
use seeking_os.FileRead.{copy_sectors}
use seeking_os.Directory.{
  entry_bytes, all_blocks_of, search_sector, search_blocks, search_dir_entry,
}
use seeking_os.Directory.Search.{Named, SameBut, Nowhere}
use seeking_os.Directory.Blocks.{IsFirstEntry}
use seeking_os.Directory.Whole.{dir_block, search_dir_entry_lem}

abbrev disk : Memory
disk a =
    if a == 1536 || a == 1560 || a == 1561
    then 0x2e
    else if a == 1584
    then 0x61
    else if a == 1600
    then 9
    else 0

abbrev directory : Inode
directory = record {
  i_no = 4;
  i_size = 72;
  i_open_cnts = 1;
  writen_deny = false;
  i_sectors = λ k. if k == 0 then 3 else 0;
}

-- The name `a` at 100, with a buffer at 1000 and the caller's entry at 2000
abbrev memory : Memory
memory a = if a == 100 then 0x61 else 0

abbrev names : ℕ → ℕ → List ℕ
names k e =
    if k == 0
    then (if e == 0
        then 0x2e ∷ []
        else if e == 1
        then 0x2e ∷ 0x2e ∷ []
        else if e == 2
        then 0x61 ∷ []
        else [])
    else []

abbrev was_found : Outcome (Bool × Memory) → Option ℕ
was_found (ok r) = if r.0 then some (r.1 2016) else none
was_found panic = some 7
was_found out_of_fuel = some 8

abbrev search : ℕ → Outcome (Bool × Memory)
search name = search_dir_entry 24 disk directory 24 memory name 2000 (some (λ i. 0)) 1000

a_has_inode_9 : was_found (search 100) ≡ some 9
unfolding search_dir_entry search_blocks search_sector strcmp compare_strings memcpy copy
    read_sectors all_blocks_of copy_sectors
a_has_inode_9 = refl

in_sector :
    (e : ℕ) → IsCstr disk (dir_block disk directory 0 * sector_size + e * entry_bytes) (names 0 e)
in_sector zero = (refl, omega arith, refl)
in_sector (suc zero) = (refl, omega arith, (refl, omega arith, refl))
in_sector (suc (suc zero)) = (refl, omega arith, refl)
in_sector (suc (suc (suc e))) = ground arith

named : Named disk (dir_block disk directory) 21 24 names
named = record {
  stored = λ k e low used few. elim (Bool-cases (k == 0)) [
    | inl first ↦ let k≡ : k ≡ 0 = ground arith in rw k≡ (in_sector e)
    | inr other ↦ absurd (used (ground arith))
  ];
  within = λ k e few. ground arith;
  short = λ k e few. ground arith;
}

search_dir_entry_lem_example :
    ((k : ℕ) × (e : ℕ) × (m' : Memory) × (k < 140)
      × IsFirstEntry (dir_block disk directory) 21 names (0x61 ∷ []) 0 k e
      × (search_dir_entry 24 disk directory entry_bytes memory 100 2000 (some (λ i. 0)) 1000
          ≡ ok (true, m'))
      × ((i : ℕ)
          → i < entry_bytes
          → m' (2000 + i) ≡ disk (dir_block disk directory k * sector_size + (e * entry_bytes + i)))
      × ((a : ℕ)
          → (a < 1000) ⊎ (1000 + sector_size ≤ a)
          → (a < 2000) ⊎ (2000 + entry_bytes ≤ a)
          → m' a ≡ memory a))
    ⊎ ((m' : Memory) × (search_dir_entry 24 disk directory entry_bytes memory 100 2000
            (some (λ i. 0))
            1000
          ≡ ok (false, m'))
        × Nowhere (dir_block disk directory) 21 names (0x61 ∷ []) 0 140
        × SameBut 1000 memory m')
search_dir_entry_lem_example =
    search_dir_entry_lem 24 disk directory memory 100 2000 (λ i. 0) 1000 names (0x61 ∷ []) named
      (λ a. ground arith) (λ a. ground arith) (refl, omega arith, refl) (omega arith) (omega arith)
      (omega arith) (inl (omega arith)) (inr (omega arith)) (λ i lo hi. refl)
