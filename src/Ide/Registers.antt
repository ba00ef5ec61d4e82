-- ===== src/Ide/Registers.antt =====
-- What a request says to a drive that reads its registers as the ATA documents do.
use seeking_os.Prelude.{
  ℕ, ◌+◌, ◌*◌, ◌/◌, ◌%◌, ◌^◌, ◌≤◌, ◌<◌, ◌≡◌, refl, true, arith, ok, ◌==◌, Bool-cases, inl, inr, ltb,
  if◌then◌else◌, bit_or,
}
use seeking_os.Ide.{Request, max_lba, select_disk, select_sector, size_in_bytes, secs_op}

-- The sector number of 28 bits in the registers
abbrev pub lba_of : Request → ℕ
lba_of r = r.reg_lba_l + r.reg_lba_m * 2 ^ 8 + r.reg_lba_h * 2 ^ 16 + r.reg_dev % 16 * 2 ^ 24

-- A count of 0 asks for 256 sectors.
abbrev pub count_of : Request → ℕ
count_of r = if r.reg_sect_cnt == 0 then 256 else r.reg_sect_cnt

-- The registers ask for `cnt` sectors from `lba` on.
pub record Asks (r : Request) (dev_no lba cnt : ℕ) : Type 0 where
  pub sectors : count_of r ≡ cnt
  pub start : lba_of r ≡ lba
  pub drive : r.reg_dev / 16 ≡ (if dev_no == 1 then 15 else 14)

device_byte : (dev_no : ℕ) → bit_or (select_disk dev_no) 0 ≡ (if dev_no == 1 then 240 else 224)
unfolding select_disk
device_byte dev_no = elim (Bool-cases (dev_no == 1)) [ inl e ↦ rw e refl | inr e ↦ rw e refl ]

-- A request for 1 to 256 sectors below `max_lba` says so in the registers.
pub select_sector-Asks :
    (dev_no lba cnt : ℕ)
    → lba < max_lba
    → 0 < cnt
    → cnt ≤ 256
    → (r : Request) × (select_sector dev_no lba cnt ≡ ok r) × Asks r dev_no lba cnt
unfolding select_sector
select_sector-Asks dev_no lba cnt below some_ few =
    let top : lba / 2 ^ 24 ≡ 0 = omega arith in
    let byte = device_byte dev_no in
    let inside : ltb lba max_lba ≡ true = ground arith in
    let r : Request = record {
      reg_sect_cnt = cnt % 256;
      reg_lba_l = lba % 256;
      reg_lba_m = lba / 2 ^ 8 % 256;
      reg_lba_h = lba / 2 ^ 16 % 256;
      reg_dev = (if dev_no == 1 then 240 else 224);
    } in
    (
      r,
      rw (inside, top, byte) (ground arith),
      record { sectors = ground arith; start = ground arith; drive = ground arith },
    )

-- The transfer behind a request moves the sectors that were asked for.
pub size_in_bytes_lem : (cnt : ℕ) → 0 < cnt → cnt ≤ 256 → size_in_bytes cnt ≡ cnt * 512
unfolding size_in_bytes
size_in_bytes_lem cnt some_ few = ground arith

-- Each request is for at least one of the sectors that are left and for at most 256.
pub secs_op_lem :
    (secs_done sec_cnt : ℕ)
    → secs_done < sec_cnt
    → sec_cnt < 2 ^ 31
    → (0 < secs_op secs_done sec_cnt)
      × (secs_op secs_done sec_cnt ≤ 256)
      × (secs_done + secs_op secs_done sec_cnt ≤ sec_cnt)
unfolding secs_op
secs_op_lem secs_done sec_cnt left bound = ground arith
