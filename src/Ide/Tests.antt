-- ===== src/Ide/Tests.antt =====
-- A drive that is busy at the first reading, for device/ide.c.
use seeking_os.Prelude.{
  ℕ, ◌+◌, ◌-◌, ◌*◌, ◌≡◌, refl, arith, ◌&&◌, Memory, ok, ◌==◌, if◌then◌else◌, leb, ltb,
}
use seeking_os.Inode.{read_sectors, write_sectors}
use seeking_os.Ide.{Request, ide_read, ide_write, swap_paris_bytes, swap_pairs}
use seeking_os.Ide.Registers.{lba_of, count_of}
use seeking_os.Ide.Transfer.{IsReady, ide_read_lem, ide_write_lem}

abbrev status : ℕ → ℕ → ℕ
status k j = if j == 0 then 0x80 else 0x58

status-IsReady : IsReady status
status-IsReady = λ k. (
  1,
  record {
    soon = omega arith;
    busy = λ j lt. let e : j ≡ 0 = omega arith in rw e refl;
    free = refl;
    data_request = refl;
  },
)

abbrev disk : Memory
disk d = d

abbrev hand_out : Request → ℕ → ℕ
hand_out r i = disk (lba_of r * 512 + i)

abbrev take_in : Memory → Request → (ℕ → ℕ) → Memory
take_in old r bytes d =
    if leb (lba_of r * 512) d && ltb d ((lba_of r + count_of r) * 512)
    then bytes (d - lba_of r * 512)
    else old d

ide_read_lem_example :
    (m' : Memory) × (ide_read 301 hand_out status 1 5 (λ a. 0) 4096 300 ≡ ok m')
    × ((a : ℕ) → m' a ≡ read_sectors disk 5 (λ a. 0) 4096 300 a)
ide_read_lem_example =
    ide_read_lem 301 hand_out status disk 1 5 (λ a. 0) 4096 300 (λ r i lt. refl) status-IsReady
      (omega arith) (omega arith) (omega arith)

ide_write_lem_example :
    (disk' : Memory) × (ide_write 301 take_in status 1 disk 5 (λ a. 7) 4096 300 ≡ ok disk')
    × ((d : ℕ) → disk' d ≡ write_sectors disk 5 (λ a. 7) 4096 300 d)
ide_write_lem_example =
    ide_write_lem 301 take_in status 1 disk 5 (λ a. 7) 4096 300 (λ old r bytes d. refl)
      status-IsReady (omega arith) (omega arith) (omega arith)

-- The bytes of a pair change places, and a NUL follows.
swapped : swap_paris_bytes (λ a. a) 100 200 4 203 ≡ 102
unfolding swap_paris_bytes swap_pairs
swapped = refl
