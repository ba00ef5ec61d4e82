-- ===== src/Inode/Table.antt =====
-- The table of inodes on the disk: what `inode_sync` writes is what `inode_open` reads.
use seeking_os.Prelude.{
  ℕ, ◌+◌, ◌-◌, ◌*◌, ◌/◌, ◌%◌, ◌^◌, ◌≤◌, ◌<◌, ◌≡◌, refl, ◌≢◌, ◌∙◌, true, false, ◌&&◌, arith, Memory,
  ok, leb, ltb, if◌then◌else◌, add32,
}
use seeking_os.Inode.{
  Inode, Partition, read_sectors, write_sectors, byte_of, word_of, image_of, pure_of, put_image,
  inode_sync, word_at, inode_at, inode_load,
}
use seeking_os.Inode.Place.{secs_of, inode_locate-Locates}

-- The table lies on the partition, and its sectors have numbers of 32 bits.
pub record IsMounted (part : Partition) : Type 0 where
  pub fits : part.inode_table_lba + 609 < 2 ^ 32
  pub inside : part.inode_table_lba + 609 ≤ add32 part.start_lba part.sec_cnt

-- Where the table's bytes for an inode start
abbrev pub base_of : Partition → ℕ → ℕ
base_of part nr = part.inode_table_lba * 512 + nr * 76

put_in_sectors :
    (disk m : Memory) (inode : Inode) (lba off secs buf base d : ℕ)
    → lba * 512 + off ≡ base
    → off + 76 ≤ secs * 512
    → write_sectors disk lba
        (put_image (read_sectors disk lba m buf secs) (buf + off) inode)
        buf
        secs
        d
      ≡ (if leb base d && ltb d (base + 76) then image_of inode (d - base) else disk d)
unfolding write_sectors put_image read_sectors
put_in_sectors disk m inode lba off secs buf base d start holds = ground arith

-- `inode_sync` writes the inode's bytes in the table, without what matters in memory only, and no
-- other byte of the disk.
pub inode_sync_lem :
    (part : Partition) (disk : Memory) (inode : Inode) (m : Memory) (io_buf : ℕ)
    → IsMounted part
    → inode.i_no < 4096
    → (disk' : Memory) × (inode_sync part disk inode m io_buf ≡ ok disk')
      × ((d : ℕ)
          → disk' d ≡ (
              if leb (base_of part inode.i_no) d && ltb d (base_of part inode.i_no + 76)
              then image_of (pure_of inode) (d - base_of part inode.i_no)
              else disk d))
unfolding inode_sync
inode_sync_lem part disk inode m io_buf mounted lt =
    let (pos, ran, at) = inode_locate-Locates part inode.i_no lt mounted.fits in
    let start = at.start in
    let inside = mounted.inside in
    let off = at.inside in
    let sector : leb pos.sec_lba (add32 part.start_lba part.sec_cnt) ≡ true =
      ground (arith, start, inside, off) in
    (
      write_sectors disk pos.sec_lba
          (put_image (read_sectors disk pos.sec_lba m io_buf (secs_of pos)) (io_buf + pos.off_size)
            (pure_of inode))
          io_buf (secs_of pos),
      rw (ran, sector),
      λ d.
          put_in_sectors disk m (pure_of inode) pos.sec_lba pos.off_size (secs_of pos) io_buf
            (base_of part inode.i_no) d at.start at.holds,
    )

-- Two memories with the same bytes hold the same words.
same_word :
    (m m' : Memory) (p q k : ℕ)
    → ((x y : ℕ) → x + q ≡ p + y → q + k * 4 ≤ y → y < q + k * 4 + 4 → m x ≡ m' y)
    → word_at m p k ≡ word_at m' q k
same_word m m' p q k same = omega (
  arith,
  same (p + k * 4) (q + k * 4) (omega arith) (omega arith) (omega arith),
  same (p + k * 4 + 1) (q + k * 4 + 1) (omega arith) (omega arith) (omega arith),
  same (p + k * 4 + 2) (q + k * 4 + 2) (omega arith) (omega arith) (omega arith),
  same (p + k * 4 + 3) (q + k * 4 + 3) (omega arith) (omega arith) (omega arith),
)

-- A buffer of sectors holds the bytes of the disk.
byte_in_sectors :
    (disk m : Memory) (lba off secs buf base x y : ℕ)
    → lba * 512 + off ≡ base
    → off + 76 ≤ secs * 512
    → x + base ≡ buf + off + y
    → base ≤ y
    → y < base + 76
    → read_sectors disk lba m buf secs x ≡ disk y
unfolding read_sectors
byte_in_sectors disk m lba off secs buf base x y start holds e lo hi = ground arith

-- The words of the inode that `inode_load` takes from the disk
pub loaded_words :
    (part : Partition) (disk : Memory) (nr : ℕ) (m : Memory) (buf : ℕ)
    → IsMounted part
    → nr < 4096
    → (inode : Inode) × (inode_load part disk nr m buf ≡ ok inode)
      × (inode.i_no ≡ word_at disk (base_of part nr) 0)
      × (inode.i_size ≡ word_at disk (base_of part nr) 1)
      × (inode.i_open_cnts ≡ 1)
      × (inode.writen_deny ≡ ltb 0 (disk (base_of part nr + 12)))
      × ((i : ℕ) → i < 13 → inode.i_sectors i ≡ word_at disk (base_of part nr) (i + 4))
unfolding inode_load inode_at
loaded_words part disk nr m buf mounted lt =
    let (pos, ran, at) = inode_locate-Locates part nr lt mounted.fits in
    let read = read_sectors disk pos.sec_lba m buf (secs_of pos) in
    let byte : (x y : ℕ)
        → x + base_of part nr ≡ buf + pos.off_size + y
        → base_of part nr ≤ y
        → y < base_of part nr + 76
        → read x ≡ disk y =
      λ x y e lo hi.
        byte_in_sectors disk m pos.sec_lba pos.off_size (secs_of pos) buf (base_of part nr) x y
          at.start at.holds e lo hi in
    let word : (k : ℕ)
        → k < 19
        → word_at read (buf + pos.off_size) k ≡ word_at disk (base_of part nr) k =
      λ k lk. same_word read disk _ _ k (λ x y e lo hi. byte x y e (omega arith) (omega arith)) in
    (
      record (inode_at read (buf + pos.off_size)) { i_open_cnts = 1 },
      rw ran,
      word 0 (omega arith),
      word 1 (omega arith),
      refl,
      rw (
          byte (buf + pos.off_size + 12) (base_of part nr + 12) (omega arith) (omega arith)
            (omega arith)),
      λ i li. word (i + 4) (omega arith),
    )

-- An inode that the disk can hold.
pub record HasWords (inode : Inode) : Type 0 where
  pub number : inode.i_no < 4096
  pub size : inode.i_size < 2 ^ 32
  pub sectors : (i : ℕ) → i < 13 → inode.i_sectors i < 2 ^ 32

-- What an inode that is not open yet says once it is loaded.
pub record IsReopened (inode loaded : Inode) : Type 0 where
  pub number : loaded.i_no ≡ inode.i_no
  pub size : loaded.i_size ≡ inode.i_size
  pub opened_once : loaded.i_open_cnts ≡ 1
  pub not_denied : loaded.writen_deny ≡ false
  pub sectors : (i : ℕ) → i < 13 → loaded.i_sectors i ≡ inode.i_sectors i

image_byte :
    (inode : Inode) (base k j d : ℕ)
    → j < 4
    → d ≡ base + k * 4 + j
    → image_of inode (d - base) ≡ byte_of (word_of inode k) j
image_byte inode base k j d lt e =
    let word : (d - base) / 4 ≡ k = omega arith in
    let place : (d - base) % 4 ≡ j = omega arith in rw (word, place) refl

-- The bytes of an inode that stand at `base` are its words.
image_word :
    (disk : Memory) (inode : Inode) (base k : ℕ)
    → ((d : ℕ) → base ≤ d → d < base + 76 → disk d ≡ image_of inode (d - base))
    → k < 19
    → word_of inode k < 2 ^ 32
    → word_at disk base k ≡ word_of inode k
image_word disk inode base k image lk lw =
    let byte : (j : ℕ) → j < 4 → disk (base + k * 4 + j) ≡ byte_of (word_of inode k) j = λ j lj.
      image (base + k * 4 + j) (omega arith) (omega arith)
      ∙ image_byte inode base k j (base + k * 4 + j) lj refl in
    let first : disk (base + k * 4) ≡ byte_of (word_of inode k) 0 =
      image (base + k * 4) (omega arith) (omega arith)
      ∙ image_byte inode base k 0 (base + k * 4) (omega arith) (omega arith) in
    omega (arith, first, byte 1 (omega arith), byte 2 (omega arith), byte 3 (omega arith))

sector_word : (inode : Inode) (i : ℕ) → i < 13 → word_of (pure_of inode) (i + 4) ≡ inode.i_sectors i
unfolding word_of pure_of
sector_word inode i lt = let place : i + 4 - 4 ≡ i = omega arith in ground arith

-- What `inode_sync` writes to a mounted partition is what `inode_open` reads back from it, as an
-- inode that has been opened once and is written by no one, and all other inodes of the table stay.
pub inode_sync-inode_load :
    (part : Partition) (disk : Memory) (inode : Inode) (m m' : Memory) (buf buf' : ℕ)
    → IsMounted part
    → HasWords inode
    → (disk' : Memory) × (loaded : Inode) × (inode_sync part disk inode m buf ≡ ok disk')
      × (inode_load part disk' inode.i_no m' buf' ≡ ok loaded)
      × IsReopened inode loaded
      × ((other k : ℕ)
          → other ≢ inode.i_no
          → k < 19
          → word_at disk' (base_of part other) k ≡ word_at disk (base_of part other) k)
unfolding pure_of word_of
inode_sync-inode_load part disk inode m m' buf buf' mounted h =
    let (disk', synced, byte) = inode_sync_lem part disk inode m buf mounted h.number in
    let (loaded, ran, number, size, once, deny, sectors) =
      loaded_words part disk' inode.i_no m' buf' mounted h.number in
    let base = base_of part inode.i_no in
    let image : (d : ℕ) → base ≤ d → d < base + 76 → disk' d ≡ image_of (pure_of inode) (d - base) =
      λ d lo hi. byte d ∙ ground arith in
    let word : (k : ℕ)
        → k < 19
        → word_of (pure_of inode) k < 2 ^ 32
        → word_at disk' base k ≡ word_of (pure_of inode) k =
      λ k lk lw. image_word disk' (pure_of inode) base k image lk lw in
    (
      disk',
      loaded,
      synced,
      ran,
      record {
        number = number ∙ word 0 (omega arith) (omega (arith, h.number));
        size = size ∙ word 1 (omega arith) h.size;
        opened_once = once;
        not_denied =
            deny
            ∙ rw
                (
                  image (base + 12) (omega arith) (omega arith),
                  image_byte (pure_of inode) base 3 0 (base + 12) (omega arith) (omega arith),
                )
                refl;
        sectors = λ i li.
            sectors i li
            ∙ word (i + 4) (omega arith) (rw (sector_word inode i li) (h.sectors i li))
            ∙ sector_word inode i li;
      },
      λ other k ne lk.
          same_word disk' disk (base_of part other) (base_of part other) k
            (λ x y e lo hi. let here : x ≡ y = omega arith in byte x ∙ rw here (ground arith)),
    )
