-- ===== src/Inode.antt =====
-- fs/inode.c: the place of an inode in the table on the disk, and its way there and back.
-- The disk is its bytes, sector after sector. The calls of `ide_read` and `ide_write` here are for one
-- or two sectors, which device/ide.c moves in one transfer between the disk and a buffer: what the
-- transfer does to the bytes is `read_sectors` and `write_sectors`.
pub mod Place
pub mod Table
mod Tests
use seeking_os.Prelude.{
  ℕ, zero, suc, ◌+◌, ◌-◌, ◌*◌, ◌/◌, ◌%◌, ◌^◌, Bool, true, false, ◌&&◌, Memory, Outcome, ok, assert,
  ◌>>=◌, ◌>>◌, ltb, leb, if◌then◌else◌, add32, mul32, List, [], ◌∷◌,
}
use seeking_os.Str.{copy, fill}

abbrev pub sector_size : ℕ
sector_size = 512

-- `sizeof(struct inode)`: four words (the `bool` takes one), thirteen sectors and two links
abbrev pub inode_size : ℕ
inode_size = 76

-- The links of `inode_tag` matter in memory only, and are 0 on the disk.
pub record Inode : Type 0 where
  pub i_no : ℕ
  pub i_size : ℕ
  pub i_open_cnts : ℕ
  pub writen_deny : Bool
  pub i_sectors : ℕ → ℕ

-- The fields of `struct super_block` and of `struct partition` that are read here
pub record Partition : Type 0 where
  pub inode_table_lba : ℕ
  pub start_lba : ℕ
  pub sec_cnt : ℕ

pub record InodePosition : Type 0 where
  pub two_sec : Bool
  pub sec_lba : ℕ
  pub off_size : ℕ

unfoldable pub inode_locate : Partition → ℕ → Outcome InodePosition
inode_locate part inode_no = do
  assert (ltb inode_no 4096)
  let off_size = mul32 inode_no inode_size
  let off_sec = off_size / sector_size
  let off_size_in_sec = off_size % sector_size
  ok (record {
    two_sec = ltb (sector_size - off_size_in_sec) inode_size;
    sec_lba = add32 part.inode_table_lba off_sec;
    off_size = off_size_in_sec;
  })

unfoldable pub read_sectors : Memory → ℕ → Memory → ℕ → ℕ → Memory
read_sectors disk lba m buf sec_cnt a =
    if leb buf a && ltb a (buf + sec_cnt * sector_size)
    then disk (lba * sector_size + (a - buf))
    else m a

unfoldable pub write_sectors : Memory → ℕ → Memory → ℕ → ℕ → Memory
write_sectors disk lba m buf sec_cnt d =
    if leb (lba * sector_size) d && ltb d ((lba + sec_cnt) * sector_size)
    then m (buf + (d - lba * sector_size))
    else disk d

-- Byte `i` of the word `w`, the lowest first
abbrev pub byte_of : ℕ → ℕ → ℕ
byte_of w i =
    if ltb i 2
    then (if ltb i 1 then w % 256 else w / 256 % 256)
    else if ltb i 3
    then w / 65536 % 256
    else w / 16777216 % 256

-- Word `k` of an inode on the disk
unfoldable pub word_of : Inode → ℕ → ℕ
word_of inode k =
    if ltb k 2
    then (if ltb k 1 then inode.i_no else inode.i_size)
    else if ltb k 3
    then inode.i_open_cnts
    else if ltb k 4
    then (if inode.writen_deny then 1 else 0)
    else if ltb k 17
    then inode.i_sectors (k - 4)
    else 0

-- The bytes of an inode in memory
abbrev pub image_of : Inode → Memory
image_of inode a = byte_of (word_of inode (a / 4)) (a % 4)

-- `pure_inode`
unfoldable pub pure_of : Inode → Inode
pure_of inode = record inode { i_open_cnts = 0; writen_deny = false }

-- `memcpy(inode_buf + off_size, inode, sizeof(struct inode))`
unfoldable pub put_image : Memory → ℕ → Inode → Memory
put_image m dst inode a =
    if leb dst a && ltb a (dst + inode_size) then image_of inode (a - dst) else m a

-- `io_buf` is the buffer, at its address in the memory `m`; the result is the disk.
unfoldable pub inode_sync : Partition → Memory → Inode → Memory → ℕ → Outcome Memory
inode_sync part disk inode m io_buf = do
  inode_pos ← inode_locate part inode.i_no
  assert (leb inode_pos.sec_lba (add32 part.start_lba part.sec_cnt))
  let secs = if inode_pos.two_sec then 2 else 1
  let m₁ = read_sectors disk inode_pos.sec_lba m io_buf secs
  let m₂ = put_image m₁ (io_buf + inode_pos.off_size) (pure_of inode)
  ok (write_sectors disk inode_pos.sec_lba m₂ io_buf secs)

unfoldable pub inode_delete : Partition → Memory → ℕ → Memory → ℕ → Outcome Memory
inode_delete part disk inode_no m io_buf = do
  assert (ltb inode_no 4096)
  inode_pos ← inode_locate part inode_no
  assert (leb inode_pos.sec_lba (add32 part.start_lba part.sec_cnt))
  let secs = if inode_pos.two_sec then 2 else 1
  let m₁ = read_sectors disk inode_pos.sec_lba m io_buf secs
  let m₂ = fill m₁ (io_buf + inode_pos.off_size) 0 inode_size
  ok (write_sectors disk inode_pos.sec_lba m₂ io_buf secs)

-- Word `k` of what stands at `p`
abbrev pub word_at : Memory → ℕ → ℕ → ℕ
word_at m p k =
    m (p + k * 4)
    + m (p + k * 4 + 1) * 256
    + m (p + k * 4 + 2) * 65536
    + m (p + k * 4 + 3) * 16777216

-- The `struct inode` whose bytes stand at `p`
unfoldable pub inode_at : Memory → ℕ → Inode
inode_at m p = record {
  i_no = word_at m p 0;
  i_size = word_at m p 1;
  i_open_cnts = word_at m p 2;
  writen_deny = ltb 0 (m (p + 12));
  i_sectors = λ i. word_at m p (i + 4);
}

-- `inode_open` of an inode that is not open yet: what it reads from the disk into `inode_buf`
unfoldable pub inode_load : Partition → Memory → ℕ → Memory → ℕ → Outcome Inode
inode_load part disk inode_no m inode_buf = do
  inode_pos ← inode_locate part inode_no
  let secs = if inode_pos.two_sec then 2 else 1
  let m₁ = read_sectors disk inode_pos.sec_lba m inode_buf secs
  ok (record (inode_at m₁ (inode_buf + inode_pos.off_size)) { i_open_cnts = 1 })

unfoldable pub inode_init : ℕ → Inode
inode_init inode_no = record {
  i_no = inode_no;
  i_size = 0;
  i_open_cnts = 0;
  writen_deny = false;
  i_sectors = λ i. 0;
}
