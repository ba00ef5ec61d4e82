-- ===== src/Inode/Place.antt =====
-- Where an inode stands in the table.
use seeking_os.Prelude.{
  ℕ, ◌+◌, ◌-◌, ◌*◌, ◌/◌, ◌%◌, ◌^◌, ◌≤◌, ◌<◌, ◌≡◌, true, arith, ok, ltb, if◌then◌else◌, add32, mul32,
}
use seeking_os.Inode.{Partition, InodePosition, inode_locate}

-- The number of sectors that are read and written
abbrev pub secs_of : InodePosition → ℕ
secs_of pos = if pos.two_sec then 2 else 1

-- `pos` is where the bytes from `nr * 76` on of the table stand, and the sectors it asks for hold them.
pub record Locates (part : Partition) (nr : ℕ) (pos : InodePosition) : Type 0 where
  pub start : pos.sec_lba * 512 + pos.off_size ≡ part.inode_table_lba * 512 + nr * 76
  pub inside : pos.off_size < 512
  pub holds : pos.off_size + 76 ≤ secs_of pos * 512
  pub needed : pos.two_sec ≡ true → 512 < pos.off_size + 76

-- For an inode number below 4096 and a table whose sectors have numbers of 32 bits, `inode_locate`
-- finds the bytes of the inode, and asks for two sectors exactly if they do not lie in one.
pub inode_locate-Locates :
    (part : Partition) (nr : ℕ)
    → nr < 4096
    → part.inode_table_lba + 609 < 2 ^ 32
    → (pos : InodePosition) × (inode_locate part nr ≡ ok pos) × Locates part nr pos
unfolding inode_locate
inode_locate-Locates part nr lt fits =
    let valid : ltb nr 4096 ≡ true = ground arith in
    let off : mul32 nr 76 ≡ nr * 76 = omega arith in
    (
      record {
        two_sec = ltb (512 - nr * 76 % 512) 76;
        sec_lba = add32 part.inode_table_lba (nr * 76 / 512);
        off_size = nr * 76 % 512;
      },
      rw (valid, off),
      record {
        start = omega arith;
        inside = omega arith;
        holds = ground arith;
        needed = λ e. ground arith;
      },
    )
