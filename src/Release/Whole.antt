-- ===== src/Release/Whole.antt =====
-- `inode_realse` as a whole.
use seeking_os.Prelude.{
  ℕ, ◌+◌, ◌-◌, ◌<◌, ◌≡◌, refl, sym, ◌≢◌, ◌∙◌, ◌⊎◌, arith, true, false, Memory, ok, ◌==◌, ==-refl,
  Bool-cases, inl, inr, ltb, leb, if◌then◌else◌, add32,
}
use seeking_os.Str.{fill}
use seeking_os.Bitmap.{bitmap_scan_test, bitmap_set}
use seeking_os.Bitmap.Scan.{IsValid}
use seeking_os.Bitmap.Set.{bitmap_set-Updated}
use seeking_os.Inode.{Inode, Partition, inode_delete, read_sectors, write_sectors}
use seeking_os.Inode.Place.{secs_of, inode_locate-Locates}
use seeking_os.Inode.Table.{IsMounted}
use seeking_os.Files.{bitmap_sync}
use seeking_os.FileRead.{read_table}
use seeking_os.FileRead.Bytes.{block_at}
use seeking_os.Release.{Sectors, Stored, direct_blocks, release_blocks, inode_realse}
use seeking_os.Release.Blocks.{Frees, Frees-trans, IsBlock, free_block_lem, free_blocks_lem}

-- How many blocks an inode leads to at most
abbrev pub blocks_of : Inode → ℕ
blocks_of inode = if inode.i_sectors 12 == 0 then 12 else 140

-- A block of the file, or that of its table
abbrev pub HasBlock : Memory → Inode → ℕ → Type 0
HasBlock disk inode b =
    (b ≢ 0)
    × (((k : ℕ) × (k < blocks_of inode) × (block_at disk inode k ≡ b)) ⊎ (inode.i_sectors 12 ≡ b))

-- What has become of the bits of the blocks
record Released (lay : Sectors) (s : Stored) (inode : Inode) (s' : Stored) : Type 0 where
  frees : Frees s s'
  gone :
      (b : ℕ)
      → HasBlock s.disk inode b
      → bitmap_scan_test s'.block_bitmap (b - lay.data_start_lba) ≡ false
  kept :
      (j : ℕ)
      → ((b : ℕ) → HasBlock s.disk inode b → b - lay.data_start_lba ≢ j)
      → bitmap_scan_test s'.block_bitmap j ≡ bitmap_scan_test s.block_bitmap j

table_blocks :
    (disk : Memory) (inode : Inode) (k : ℕ)
    → k < 140
    → read_table disk (inode.i_sectors 12) (direct_blocks inode) k ≡ block_at disk inode k
unfolding read_table
table_blocks disk inode k lt = ground arith

release_blocks-Released :
    (lay : Sectors) (s : Stored) (inode : Inode)
    → IsValid s.block_bitmap
    → ((b : ℕ) → HasBlock s.disk inode b → IsBlock lay b)
    → (s' : Stored) × (release_blocks lay s inode ≡ ok s') × Released lay s inode s'
unfolding release_blocks
release_blocks-Released lay s inode valid own = elim (Bool-cases (inode.i_sectors 12 == 0)) [
  | inl direct ↦
      let none_ : inode.i_sectors 12 ≡ 0 = ground arith in
      let few : blocks_of inode ≡ 12 = rw direct refl in
      let same : (k : ℕ) → k < 12 → direct_blocks inode k ≡ block_at s.disk inode k =
        λ k lt. ground arith in
      let (s', ran, frees, gone, kept) =
        free_blocks_lem 12 lay s (direct_blocks inode) 0 valid (λ k lt some_.
          own (direct_blocks inode k)
            (some_, inl (k, rw few (omega arith), sym (same k (omega arith))))) in
      (
        s',
        rw direct ran,
        record {
          frees = frees;
          gone = λ b (some_, at). elim at [
            | inl (k, lt, e) ↦
                let k<12 : k < 12 = rw few at lt in
                let here = same k k<12 ∙ e in
                rw here at (gone k (omega arith) (omega arith) (λ z. some_ (sym here ∙ z)))
            | inr e ↦ absurd (some_ (sym e ∙ none_))
          ];
          kept = λ j out. kept j (λ k lo hi some_.
              out (direct_blocks inode k)
                (some_, inl (k, rw few (omega arith), sym (same k (omega arith)))));
        },
      )
  | inr table ↦
      let there : inode.i_sectors 12 ≢ 0 = λ e. ground arith in
      let many : blocks_of inode ≡ 140 = rw table refl in
      let all = read_table s.disk (inode.i_sectors 12) (direct_blocks inode) in
      let same = table_blocks s.disk inode in
      let (s₁, freed, frees₁, gone₁, kept₁) =
        free_block_lem lay s (inode.i_sectors 12) valid
          (own (inode.i_sectors 12) (there, inr refl)) in
      let (s', ran, frees, gone, kept) =
        free_blocks_lem 140 lay s₁ all 0 frees₁.valid (λ k lt some_.
          own (all k) (some_, inl (k, rw many (omega arith), sym (same k (omega arith))))) in
      (
        s',
        rw (table, freed) ran,
        record {
          frees = Frees-trans s s₁ s' frees₁ frees;
          gone = λ b (some_, at). elim at [
            | inl (k, lt, e) ↦
                let k<140 : k < 140 = rw many at lt in
                let here = same k k<140 ∙ e in
                rw here at (gone k (omega arith) (omega arith) (λ z. some_ (sym here ∙ z)))
            | inr e ↦ rw e at (frees.clear (inode.i_sectors 12 - lay.data_start_lba) gone₁)
          ];
          kept = λ j out.
              kept j (λ k lo hi some_.
                out (all k) (some_, inl (k, rw many (omega arith), sym (same k (omega arith)))))
              ∙ kept₁ j (out (inode.i_sectors 12) (there, inr refl));
        },
      )
]

inode_delete-returns :
    (part : Partition) (disk : Memory) (nr : ℕ) (m : Memory) (io_buf : ℕ)
    → IsMounted part
    → nr < 4096
    → (disk' : Memory) × (inode_delete part disk nr m io_buf ≡ ok disk')
unfolding inode_delete
inode_delete-returns part disk nr m io_buf mounted lt =
    let (pos, ran, at) = inode_locate-Locates part nr lt mounted.fits in
    let start = at.start in
    let inside = mounted.inside in
    let off = at.inside in
    let number : ltb nr 4096 ≡ true = ground arith in
    let sector : leb pos.sec_lba (add32 part.start_lba part.sec_cnt) ≡ true =
      ground (arith, start, inside, off) in
    (
      write_sectors disk pos.sec_lba
          (fill (read_sectors disk pos.sec_lba m io_buf (secs_of pos)) (io_buf + pos.off_size) 0 76)
          io_buf (secs_of pos),
      rw (number, ran, sector) refl,
    )

-- For an inode in the table of a mounted partition whose blocks, and the one of its table, lie
-- behind the first block of the data, `inode_realse` returns, the bits of these blocks are 0 and no
-- other bit of the bitmap of blocks has changed, and of the bitmap of inodes the inode's bit alone,
-- which is 0.
pub inode_realse_lem :
    (lay : Sectors) (s : Stored) (inode : Inode) (m : Memory) (io_buf : ℕ)
    → IsValid s.block_bitmap
    → IsValid s.inode_bitmap
    → IsMounted lay.part
    → inode.i_no < 4096
    → ((b : ℕ) → HasBlock s.disk inode b → IsBlock lay b)
    → (s' : Stored) × (inode_realse lay s inode inode.i_no m io_buf ≡ ok s')
      × ((b : ℕ)
          → HasBlock s.disk inode b
          → bitmap_scan_test s'.block_bitmap (b - lay.data_start_lba) ≡ false)
      × ((j : ℕ)
          → ((b : ℕ) → HasBlock s.disk inode b → b - lay.data_start_lba ≢ j)
          → bitmap_scan_test s'.block_bitmap j ≡ bitmap_scan_test s.block_bitmap j)
      × ((j : ℕ)
          → bitmap_scan_test s'.inode_bitmap j
            ≡ (if inode.i_no == j then false else bitmap_scan_test s.inode_bitmap j))
unfolding inode_realse
inode_realse_lem lay s inode m io_buf blocks inodes mounted lt own =
    let (s₁, ran, released) = release_blocks-Released lay s inode blocks own in
    let same = (released.frees).inodes in
    let (btmp, set, updated) =
      bitmap_set-Updated s.inode_bitmap inode.i_no 0 inodes (omega arith) in
    let set₁ : bitmap_set s₁.inode_bitmap inode.i_no 0 ≡ ok btmp = rw same set in
    let (disk', deleted) =
      inode_delete-returns lay.part (bitmap_sync s₁.disk lay.inode_bitmap_lba btmp inode.i_no)
        inode.i_no m io_buf mounted lt in
    (
      record s₁ { disk = disk'; inode_bitmap = btmp },
      rw (==-refl, ran, set₁, deleted) refl,
      released.gone,
      released.kept,
      updated.bit,
    )
