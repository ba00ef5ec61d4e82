-- ===== src/Ide.antt =====
-- device/ide.c: how sectors get from the drive to a buffer and back.
-- The drive is a parameter: what it hands out and takes in is a function of the registers that a request
-- sets, and `status` is what its status register shows at each reading. `sema_down(&disk_done)` returns
-- when the drive has interrupted. Locks are taken around the calls.
pub mod Registers
pub mod Transfer
mod Tests
use seeking_os.Prelude.{
  ℕ, zero, suc, ◌+◌, ◌-◌, ◌*◌, ◌/◌, ◌%◌, ◌^◌, Bool, true, false, not, ◌&&◌, Memory, Outcome, ok,
  panic, out_of_fuel, assert, ◌>>=◌, ◌>>◌, ◌==◌, ltb, leb, if◌then◌else◌, add32, sub32, u8, bit_and,
  bit_or,
}

abbrev pub max_lba : ℕ
max_lba = 163839

-- The registers of a channel that describe a request
pub record Request : Type 0 where
  pub reg_sect_cnt : ℕ
  pub reg_lba_l : ℕ
  pub reg_lba_m : ℕ
  pub reg_lba_h : ℕ
  pub reg_dev : ℕ

-- `BIT_DEV_MBS | BIT_DEV_LBA`, and `BIT_DEV_DEV` for the second drive of a channel
unfoldable pub select_disk : ℕ → ℕ
select_disk dev_no = if dev_no == 1 then 0xf0 else 0xe0

-- `outb` writes the lowest byte of its value, and `sec_cnt` is a byte.
unfoldable pub select_sector : ℕ → ℕ → ℕ → Outcome Request
select_sector dev_no lba sec_cnt = do
  assert (ltb lba max_lba)
  ok (record {
    reg_sect_cnt = u8 sec_cnt;
    reg_lba_l = u8 lba;
    reg_lba_m = u8 (lba / 2 ^ 8);
    reg_lba_h = u8 (lba / 2 ^ 16);
    reg_dev = u8 (bit_or (select_disk dev_no) (lba / 2 ^ 24));
  })

-- The size of a transfer of `sec_cnt` sectors, which is a byte
unfoldable pub size_in_bytes : ℕ → ℕ
size_in_bytes sec_cnt = if u8 sec_cnt == 0 then 256 * 512 else u8 sec_cnt * 512

-- The bytes of the drive's buffer go to `buf`.
unfoldable pub read_from_sector : (ℕ → ℕ) → Memory → ℕ → ℕ → Memory
read_from_sector bytes m buf sec_cnt a =
    if leb buf a && ltb a (buf + size_in_bytes sec_cnt) then bytes (a - buf) else m a

-- `while (time_limit -= 10 >= 0)`, which C reads as `time_limit -= (10 >= 0)`; the number of
-- readings of the status register so far tells what it shows next.
unfoldable pub busy_wait : ℕ → (ℕ → ℕ) → ℕ → Bool
busy_wait zero status readings = false
busy_wait (suc time_limit) status readings =
    let rest = busy_wait time_limit status (readings + 1) in
    if time_limit == 0
    then false
    else if bit_and (status readings) 0x80 == 0
    then not (bit_and (status (readings + 1)) 0x8 == 0)
    else rest

-- How many sectors the next request is for
unfoldable pub secs_op : ℕ → ℕ → ℕ
secs_op secs_done sec_cnt =
    if leb (add32 secs_done 256) sec_cnt then 256 else sub32 sec_cnt secs_done

-- `hand_out` is what the drive answers to a request, and `status` what it shows while it is asked for
-- the sectors from `secs_done` on.
unfoldable pub read_rounds :
    ℕ → (Request → ℕ → ℕ) → (ℕ → ℕ → ℕ) → ℕ → ℕ → Memory → ℕ → ℕ → ℕ → Outcome Memory
read_rounds zero hand_out status dev_no lba m buf sec_cnt secs_done = out_of_fuel
read_rounds (suc n) hand_out status dev_no lba m buf sec_cnt secs_done =
    let op = secs_op secs_done sec_cnt in
    let round = select_sector dev_no (add32 lba secs_done) op >>= λ asked.
    assert (busy_wait 30000 (status secs_done) 0)
    >> read_rounds n hand_out status dev_no lba
        (read_from_sector (hand_out asked) m (buf + secs_done * 512) op) buf sec_cnt
        (secs_done + op) in
    if ltb secs_done sec_cnt then round else ok m

unfoldable pub ide_read :
    ℕ → (Request → ℕ → ℕ) → (ℕ → ℕ → ℕ) → ℕ → ℕ → Memory → ℕ → ℕ → Outcome Memory
ide_read n hand_out status dev_no lba m buf sec_cnt = do
  assert (leb lba max_lba)
  assert (ltb 0 sec_cnt)
  read_rounds n hand_out status dev_no lba m buf sec_cnt 0

-- `write2sector`: the bytes that the drive gets
unfoldable pub write2sector : Memory → ℕ → ℕ → ℕ → ℕ
write2sector m buf sec_cnt i = if ltb i (size_in_bytes sec_cnt) then m (buf + i) else 0

-- `take_in` is what the drive holds after a request with the bytes it gets.
unfoldable pub write_rounds :
    ℕ
    → (Memory → Request → (ℕ → ℕ) → Memory)
    → (ℕ → ℕ → ℕ)
    → ℕ
    → Memory
    → ℕ
    → Memory
    → ℕ
    → ℕ
    → ℕ
    → Outcome Memory
write_rounds zero take_in status dev_no disk lba m buf sec_cnt secs_done = out_of_fuel
write_rounds (suc n) take_in status dev_no disk lba m buf sec_cnt secs_done =
    let op = secs_op secs_done sec_cnt in
    let round = select_sector dev_no (add32 lba secs_done) op >>= λ asked.
    assert (busy_wait 30000 (status secs_done) 0)
    >> write_rounds n take_in status dev_no
        (take_in disk asked (write2sector m (buf + secs_done * 512) op)) lba m buf sec_cnt
        (secs_done + op) in
    if ltb secs_done sec_cnt then round else ok disk

unfoldable pub ide_write :
    ℕ
    → (Memory → Request → (ℕ → ℕ) → Memory)
    → (ℕ → ℕ → ℕ)
    → ℕ
    → Memory
    → ℕ
    → Memory
    → ℕ
    → ℕ
    → Outcome Memory
ide_write n take_in status dev_no disk lba m buf sec_cnt = do
  assert (leb lba max_lba)
  assert (ltb 0 sec_cnt)
  write_rounds n take_in status dev_no disk lba m buf sec_cnt 0

-- The loop of `swap_paris_bytes`, with the pairs to go; `dst` is read and `buf` is written.
unfoldable pub swap_pairs : ℕ → Memory → ℕ → ℕ → Memory
swap_pairs zero m dst buf = λ a. if a == buf then 0 else m a
swap_pairs (suc n) m dst buf =
    let m₁ : Memory = λ a. if a == buf + 1 then m dst else m a in
    let m₂ : Memory = λ a. if a == buf then m₁ (dst + 1) else m₁ a in
    swap_pairs n m₂ (dst + 2) (buf + 2)

unfoldable pub swap_paris_bytes : Memory → ℕ → ℕ → ℕ → Memory
swap_paris_bytes m dst buf len = swap_pairs ((len + 1) / 2) m dst buf
