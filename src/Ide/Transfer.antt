-- ===== src/Ide/Transfer.antt =====
-- A transfer of any length, in requests of at most 256 sectors, moves the same bytes as one request.
use seeking_os.Prelude.{
  ℕ, zero, suc, ◌+◌, ◌-◌, ◌*◌, ◌≤◌, ◌<◌, ◌≡◌, refl, true, false, ◌&&◌, arith, Memory, ok, assert,
  ◌==◌, Bool-cases, inl, inr, leb, ltb, if◌then◌else◌, add32, bit_and,
}
use seeking_os.Inode.{read_sectors, write_sectors}
use seeking_os.Ide.{
  Request, max_lba, read_from_sector, busy_wait, secs_op, read_rounds, ide_read, write2sector,
  write_rounds, ide_write,
}
use seeking_os.Ide.Registers.{lba_of, count_of, select_sector-Asks, size_in_bytes_lem, secs_op_lem}

-- The status register shows that the drive is busy for `after` readings, then that it is not, and
-- that data can be moved.
pub record Ready (status : ℕ → ℕ) (after : ℕ) : Type 0 where
  pub soon : after < 29999
  pub busy : (j : ℕ) → j < after → (bit_and (status j) 0x80 == 0) ≡ false
  pub free : (bit_and (status after) 0x80 == 0) ≡ true
  pub data_request : (bit_and (status (after + 1)) 0x8 == 0) ≡ false

-- Every request finds the drive ready in time.
abbrev pub IsReady : (ℕ → ℕ → ℕ) → Type 0
IsReady status = (k : ℕ) → (after : ℕ) × Ready (status k) after

-- A drive that hands out the bytes of its sectors
abbrev pub HandsOut : (Request → ℕ → ℕ) → Memory → Type 0
HandsOut hand_out disk =
    (r : Request) (i : ℕ) → i < count_of r * 512 → hand_out r i ≡ disk (lba_of r * 512 + i)

-- A drive that stores the bytes it gets in its sectors
abbrev pub TakesIn : (Memory → Request → (ℕ → ℕ) → Memory) → Type 0
TakesIn take_in =
    (disk : Memory) (r : Request) (bytes : ℕ → ℕ) (d : ℕ)
    → take_in disk r bytes d ≡ (
        if leb (lba_of r * 512) d && ltb d ((lba_of r + count_of r) * 512)
        then bytes (d - lba_of r * 512)
        else disk d)

waited :
    (n limit : ℕ) (status : ℕ → ℕ) (after readings : ℕ)
    → Ready status after
    → readings + n ≡ after
    → n + 1 < limit
    → busy_wait limit status readings ≡ true
unfolding busy_wait
waited n zero status after readings r e lt = absurd (omega arith)
waited zero (suc limit) status after readings r e lt =
    let here : readings ≡ after = omega arith in
    let free = r.free in
    let request = r.data_request in
    let left : (limit == 0) ≡ false = ground arith in rw (left, here, free, request) refl
waited (suc n) (suc limit) status after readings r e lt =
    let left : (limit == 0) ≡ false = ground arith in
    let busy = r.busy readings (omega arith) in
    rw (left, busy) (waited n limit status after (readings + 1) r (omega arith) (omega arith))

-- `busy_wait` waits for a drive that is ready in time.
pub busy_wait-Ready :
    (status : ℕ → ℕ) (after : ℕ) → Ready status after → busy_wait 30000 status 0 ≡ true
busy_wait-Ready status after r =
    waited after 30000 status after 0 r (omega arith) (omega (arith, r.soon))

read_rounds_lem :
    (n : ℕ) (hand_out : Request → ℕ → ℕ) (status : ℕ → ℕ → ℕ) (disk : Memory) (dev_no lba : ℕ)
    (m : Memory) (buf sec_cnt secs_done : ℕ)
    → HandsOut hand_out disk
    → IsReady status
    → lba + sec_cnt ≤ max_lba
    → secs_done ≤ sec_cnt
    → sec_cnt < secs_done + n
    → (m' : Memory) × (read_rounds n hand_out status dev_no lba m buf sec_cnt secs_done ≡ ok m')
      × ((a : ℕ)
          → m' a ≡ (
              if leb (buf + secs_done * 512) a && ltb a (buf + sec_cnt * 512)
              then disk (lba * 512 + (a - buf))
              else m a))
unfolding read_rounds read_from_sector
read_rounds_lem zero hand_out status disk dev_no lba m buf sec_cnt secs_done h r fits le fuel =
    absurd (omega arith)
read_rounds_lem (suc n) hand_out status disk dev_no lba m buf sec_cnt secs_done h r fits le fuel =
    elim (Bool-cases (ltb secs_done sec_cnt)) [
      | inr all ↦ (m, rw all refl, λ a. ground arith)
      | inl left ↦
          let lt : secs_done < sec_cnt = ground arith in
          let (some_, few, inside) = secs_op_lem secs_done sec_cnt lt (omega arith) in
          let op = secs_op secs_done sec_cnt in
          let (asked, ran, at) =
            select_sector-Asks dev_no (add32 lba secs_done) op (ground arith) some_ few in
          let m₁ = read_from_sector (hand_out asked) m (buf + secs_done * 512) op in
          let ready = busy_wait-Ready (status secs_done) (r secs_done).0 (r secs_done).1 in
          let (m', rest, bytes) =
            read_rounds_lem n hand_out status disk dev_no lba m₁ buf sec_cnt (secs_done + op) h r
              fits inside (omega arith) in
          let moved = size_in_bytes_lem op some_ few in
          (
            m',
            rw (left, ran, ready, assert) rest,
            λ a.
                let got = bytes a in
                let sent = h asked (a - (buf + secs_done * 512)) in
                let start = at.start in
                let sectors = at.sectors in rw got (ground (arith, moved, sent, start, sectors)),
          )
    ]

-- From a drive that answers its registers and is ready in time, `ide_read` of one sector or more
-- below `max_lba` ends, with fuel beyond the number of sectors, and puts into the buffer what one
-- transfer of all the sectors would.
pub ide_read_lem :
    (n : ℕ) (hand_out : Request → ℕ → ℕ) (status : ℕ → ℕ → ℕ) (disk : Memory) (dev_no lba : ℕ)
    (m : Memory) (buf sec_cnt : ℕ)
    → HandsOut hand_out disk
    → IsReady status
    → 0 < sec_cnt
    → lba + sec_cnt ≤ max_lba
    → sec_cnt < n
    → (m' : Memory) × (ide_read n hand_out status dev_no lba m buf sec_cnt ≡ ok m')
      × ((a : ℕ) → m' a ≡ read_sectors disk lba m buf sec_cnt a)
unfolding ide_read read_sectors
ide_read_lem n hand_out status disk dev_no lba m buf sec_cnt h r some_ fits fuel =
    let (m', ran, bytes) =
      read_rounds_lem n hand_out status disk dev_no lba m buf sec_cnt 0 h r fits (omega arith)
        (omega arith) in
    let first : leb lba max_lba ≡ true = ground arith in
    let asked : ltb 0 sec_cnt ≡ true = ground arith in
    (m', rw (first, asked, assert) ran, λ a. ground (arith, bytes a))

write_rounds_lem :
    (n : ℕ) (take_in : Memory → Request → (ℕ → ℕ) → Memory) (status : ℕ → ℕ → ℕ) (dev_no : ℕ)
    (disk : Memory) (lba : ℕ) (m : Memory) (buf sec_cnt secs_done : ℕ)
    → TakesIn take_in
    → IsReady status
    → lba + sec_cnt ≤ max_lba
    → secs_done ≤ sec_cnt
    → sec_cnt < secs_done + n
    → (disk' : Memory) × (write_rounds n take_in status dev_no disk lba m buf sec_cnt secs_done
        ≡ ok disk')
      × ((d : ℕ)
          → disk' d ≡ (
              if leb ((lba + secs_done) * 512) d && ltb d ((lba + sec_cnt) * 512)
              then m (buf + (d - lba * 512))
              else disk d))
unfolding write_rounds write2sector
write_rounds_lem zero take_in status dev_no disk lba m buf sec_cnt secs_done h r fits le fuel =
    absurd (omega arith)
write_rounds_lem (suc n) take_in status dev_no disk lba m buf sec_cnt secs_done h r fits le fuel =
    elim (Bool-cases (ltb secs_done sec_cnt)) [
      | inr all ↦ (disk, rw all refl, λ d. ground arith)
      | inl left ↦
          let lt : secs_done < sec_cnt = ground arith in
          let (some_, few, inside) = secs_op_lem secs_done sec_cnt lt (omega arith) in
          let op = secs_op secs_done sec_cnt in
          let (asked, ran, at) =
            select_sector-Asks dev_no (add32 lba secs_done) op (ground arith) some_ few in
          let bytes = write2sector m (buf + secs_done * 512) op in
          let disk₁ = take_in disk asked bytes in
          let ready = busy_wait-Ready (status secs_done) (r secs_done).0 (r secs_done).1 in
          let (disk', rest, held) =
            write_rounds_lem n take_in status dev_no disk₁ lba m buf sec_cnt (secs_done + op) h r
              fits inside (omega arith) in
          let moved = size_in_bytes_lem op some_ few in
          (
            disk',
            rw (left, ran, ready, assert) rest,
            λ d.
                let got = held d in
                let stored = h disk asked bytes d in
                let start = at.start in
                let sectors = at.sectors in
                rw (got, stored, start, sectors) (ground (arith, moved)),
          )
    ]

-- To a drive that answers its registers and is ready in time, `ide_write` of one sector or more
-- below `max_lba` ends, with fuel beyond the number of sectors, and leaves on the disk what one
-- transfer of all the sectors would.
pub ide_write_lem :
    (n : ℕ) (take_in : Memory → Request → (ℕ → ℕ) → Memory) (status : ℕ → ℕ → ℕ) (dev_no : ℕ)
    (disk : Memory) (lba : ℕ) (m : Memory) (buf sec_cnt : ℕ)
    → TakesIn take_in
    → IsReady status
    → 0 < sec_cnt
    → lba + sec_cnt ≤ max_lba
    → sec_cnt < n
    → (disk' : Memory) × (ide_write n take_in status dev_no disk lba m buf sec_cnt ≡ ok disk')
      × ((d : ℕ) → disk' d ≡ write_sectors disk lba m buf sec_cnt d)
unfolding ide_write write_sectors
ide_write_lem n take_in status dev_no disk lba m buf sec_cnt h r some_ fits fuel =
    let (disk', ran, bytes) =
      write_rounds_lem n take_in status dev_no disk lba m buf sec_cnt 0 h r fits (omega arith)
        (omega arith) in
    let first : leb lba max_lba ≡ true = ground arith in
    let asked : ltb 0 sec_cnt ≡ true = ground arith in
    (disk', rw (first, asked, assert) ran, λ d. ground (arith, bytes d))
