-- ===== src/Release/Tests.antt =====
-- An inode with one block, for `inode_realse` of fs/inode.c.
use seeking_os.Prelude.{
  ℕ, ◌-◌, ◌≡◌, sym, ◌≢◌, arith, true, false, inl, inr, ok, ◌==◌, Bool-cases, ltb, if◌then◌else◌,
}
use seeking_os.Bitmap.{Bitmap, bitmap_scan_test}
use seeking_os.Bitmap.Scan.{IsValid}
use seeking_os.Inode.{Inode}
use seeking_os.Release.{Sectors, Stored, inode_realse}
use seeking_os.Release.Blocks.{IsBlock}
use seeking_os.Release.Whole.{HasBlock, inode_realse_lem}

abbrev layout : Sectors
layout = record {
  part = record { inode_table_lba = 100; start_lba = 0; sec_cnt = 10000 };
  data_start_lba = 900;
  block_bitmap_lba = 2;
  inode_bitmap_lba = 3;
}

-- Numbers 0 to 7 are taken.
abbrev low_bits : Bitmap
low_bits = record { btmp_bytes_len = 2; bits = λ a. if a == 0 then 0xff else 0 }

low_bits-IsValid : IsValid low_bits
low_bits-IsValid = record { bytes = λ a. ground arith; small = omega arith }

abbrev stored : Stored
stored = record { disk = λ d. 0; block_bitmap = low_bits; inode_bitmap = low_bits }

abbrev inode : Inode
inode = record {
  i_no = 3;
  i_size = 40;
  i_open_cnts = 1;
  writen_deny = false;
  i_sectors = λ k. if k == 0 then 905 else 0;
}

blocks_behind : (b : ℕ) → HasBlock stored.disk inode b → IsBlock layout b
blocks_behind b (some_, inr table) = absurd (some_ (sym table))
blocks_behind b (some_, inl (k, lt, at)) = elim (Bool-cases (k == 0)) [
  | inl first ↦
      let e : k ≡ 0 = ground arith in let here : 905 ≡ b = rw e at at in (omega arith, omega arith)
  | inr other ↦
      let near : ltb k 12 ≡ true = ground arith in
      let nothing : 0 ≡ b = rw (near, other) at at in absurd (some_ (sym nothing))
]

inode_realse_lem_example :
    (s' : Stored) × (inode_realse layout stored inode 3 (λ a. 0) 5000 ≡ ok s')
    × ((b : ℕ) → HasBlock stored.disk inode b → bitmap_scan_test s'.block_bitmap (b - 900) ≡ false)
    × ((j : ℕ)
        → ((b : ℕ) → HasBlock stored.disk inode b → b - 900 ≢ j)
        → bitmap_scan_test s'.block_bitmap j ≡ bitmap_scan_test low_bits j)
    × ((j : ℕ)
        → bitmap_scan_test s'.inode_bitmap j
          ≡ (if 3 == j then false else bitmap_scan_test low_bits j))
inode_realse_lem_example =
    inode_realse_lem layout stored inode (λ a. 0) 5000 low_bits-IsValid low_bits-IsValid
      (record { fits = omega arith; inside = omega arith }) (omega arith) blocks_behind
