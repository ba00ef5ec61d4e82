-- ===== src/FileWrite/Append.antt =====
-- `file_write` of bytes for which the last block of a file has room.
use seeking_os.Prelude.{
  ℕ, ◌+◌, ◌-◌, ◌*◌, ◌/◌, ◌%◌, ◌^◌, ◌≤◌, ◌<◌, ◌≡◌, refl, sym, subst, ◌≢◌, ◌∙◌, ◌⊎◌, inl, inr, arith,
  true, false, ◌&&◌, Option, some, Memory, ok, ◌==◌, ==-refl, Bool-cases, ltb, leb, if◌then◌else◌,
  add32, sub32,
}
use seeking_os.Str.Copy.{Apart}
use seeking_os.Inode.{Inode, Partition, inode_sync}
use seeking_os.Inode.Table.{IsMounted, base_of, inode_sync_lem}
use seeking_os.FileRead.{file_read}
use seeking_os.FileRead.Bytes.{file_byte}
use seeking_os.FileRead.Whole.{readable, file_read_lem}
use seeking_os.FileWrite.{
  Layout, Growing, Written, as_left, keep_last, first_block, collect_blocks, write_chunks,
  write_all, file_write, max_file_size,
}
use seeking_os.FileWrite.Chunks.{write_chunks_lem}

-- A file in direct blocks that are its own, apart from the table of inodes
pub record IsStored (part : Partition) (inode : Inode) : Type 0 where
  pub mounted : IsMounted part
  pub number : inode.i_no < 4096
  pub direct : inode.i_size < 12 * 512
  pub first : inode.i_sectors 0 ≢ 0
  pub apart :
      (j : ℕ)
      → j ≤ inode.i_size / 512
      → (inode.i_sectors j < part.inode_table_lba)
        ⊎ (part.inode_table_lba + 609 ≤ inode.i_sectors j)
  pub own : (i j : ℕ) → i < j → j ≤ inode.i_size / 512 → inode.i_sectors i ≢ inode.i_sectors j

abbrev pub grown : Inode → ℕ → Inode
grown inode count = record inode { i_size = inode.i_size + count }

-- The parts of a run in order
write_all-parts :
    (n : ℕ) (lay : Layout) (g : Growing) (m : Memory) (buf count io : ℕ) (disk₁ : Memory)
    (size' pos' : ℕ) (m' disk₂ : Memory)
    → write_chunks n g.disk g.all_blocks io m buf true
        (g.inode).i_size
        (sub32 (g.inode).i_size 1)
        count
        0
        count
      ≡ ok (count, disk₁, size', pos', m')
    → inode_sync lay.part disk₁ (record (g.inode) { i_size = size' }) m' io ≡ ok disk₂
    → write_all n lay g m buf count io
      ≡ ok (
        some count,
        as_left (record g { disk = disk₂; inode = record (g.inode) { i_size = size' } }) pos',
      )
unfolding write_all
write_all-parts n lay g m buf count io disk₁ size' pos' m' disk₂ ran synced = rw (ran, synced) refl

file_write-parts :
    (n : ℕ) (lay : Layout) (w : Written) (m : Memory) (buf count io : ℕ) (blocks : ℕ → ℕ)
    (result : Option ℕ × Written)
    → (w.inode).i_sectors 0 ≢ 0
    → (w.inode).i_size + count < 12 * 512
    → ((w.inode).i_size + count) / 512 ≡ (w.inode).i_size / 512
    → write_all n lay
        (keep_last
          (record {
            disk = w.disk;
            block_bitmap = w.block_bitmap;
            inode = w.inode;
            all_blocks = blocks;
          })
          ((w.inode).i_size / 512 + 1))
        m
        buf
        count
        io
      ≡ ok result
    → file_write n lay w m buf count (some io) (some blocks) ≡ ok result
unfolding file_write first_block collect_blocks
file_write-parts n lay w m buf count io blocks result first direct same ran =
    let fits : ltb max_file_size (add32 (w.inode).i_size count) ≡ false = ground arith in
    let last : add32 (w.inode).i_size count / 512 ≡ (w.inode).i_size / 512 =
      let sum : add32 (w.inode).i_size count ≡ (w.inode).i_size + count = ground arith in
      rw sum same in
    let has : ((w.inode).i_sectors 0 == 0) ≡ false = ground (arith, first) in
    let few : leb ((w.inode).i_size / 512 + 1) 140 ≡ true = ground arith in
    let none_more : (sub32 ((w.inode).i_size / 512 + 1) ((w.inode).i_size / 512 + 1) == 0) ≡ true =
      ground arith in
    let in_direct : leb ((w.inode).i_size / 512 + 1) 12 ≡ true = ground arith in
    rw (fits, has, last, few, none_more, in_direct) ran

direct_byte :
    (disk : Memory) (inode : Inode) (p : ℕ)
    → p < 12 * 512
    → file_byte disk inode p ≡ disk (inode.i_sectors (p / 512) * 512 + p % 512)
direct_byte disk inode p lt = let near : ltb (p / 512) 12 ≡ true = ground arith in rw near refl

-- A byte of a block of the file is not in the inode's place.
off_table :
    (part : Partition) (nr block r : ℕ)
    → nr < 4096
    → (block < part.inode_table_lba) ⊎ (part.inode_table_lba + 609 ≤ block)
    → r < 512
    → (leb (base_of part nr) (block * 512 + r) && ltb (block * 512 + r) (base_of part nr + 76))
      ≡ false
off_table part nr block r lt (inl below) inside = ground arith
off_table part nr block r lt (inr above) inside = ground arith

module _ (n : ℕ) (lay : Layout) (w : Written) (m : Memory) (buf count io : ℕ) (blocks : ℕ → ℕ) where
  abbrev old_size : ℕ
  old_size = (w.inode).i_size

  -- For a file in direct blocks that are its own and apart from the table of inodes, and for bytes
  -- that its last block has room for, `file_write` ends and returns their number, the file is
  -- longer by the bytes of the buffer, what it held before is unchanged, and no block is allotted.
  pub file_write_lem :
      IsStored lay.part w.inode
      → (old_size + count) / 512 ≡ old_size / 512
      → 0 < io
      → 0 < buf
      → Apart buf count io 512
      → count < n
      → (w' : Written) × (file_write n lay w m buf count (some io) (some blocks)
          ≡ ok (some count, w'))
        × (w'.inode ≡ grown w.inode count)
        × (w'.block_bitmap ≡ w.block_bitmap)
        × ((k : ℕ) → k < count → file_byte w'.disk w'.inode (old_size + k) ≡ m (buf + k))
        × ((p : ℕ) → p < old_size → file_byte w'.disk w'.inode p ≡ file_byte w.disk w.inode p)
  file_write_lem stored same pi pb clear fuel =
      let direct = stored.direct in
      let g =
        keep_last
          (record {
            disk = w.disk;
            block_bitmap = w.block_bitmap;
            inode = w.inode;
            all_blocks = blocks;
          })
          (old_size / 512 + 1) in
      let pos' = (if count == 0 then sub32 old_size 1 else add32 (sub32 old_size 1) count) in
      let (disk₁, m', ran, bytes, others, head) =
        write_chunks_lem n w.disk g.all_blocks io m buf true old_size (sub32 old_size 1) count 0
          count (old_size + count) pos' refl refl pi pb clear (omega arith)
          (omega arith, omega arith) fuel (λ some_. inl refl)
          (λ i j lo lt hi. absurd (omega arith)) in
      let inode' = grown w.inode count in
      let (disk₂, synced, held) =
        inode_sync_lem lay.part disk₁ inode' m' io stored.mounted stored.number in
      let ended =
        write_all-parts n lay g m buf count io disk₁ (old_size + count) pos' m' disk₂ ran synced in
      let w' = as_left (record g { disk = disk₂; inode = inode' }) pos' in
      let last : (k : ℕ) → k < count → (old_size + k) / 512 ≡ old_size / 512 =
        λ k lt. omega arith in
      let index : old_size / 512 + 1 - 1 ≡ old_size / 512 = omega arith in
      let block : g.all_blocks (old_size / 512) ≡ (w.inode).i_sectors (old_size / 512) =
        rw (index, ==-refl) refl in
      let kept : (p : ℕ)
          → p < old_size + count
          → p / 512 ≤ old_size / 512
          → file_byte disk₂ inode' p ≡ disk₁ ((w.inode).i_sectors (p / 512) * 512 + p % 512) =
        λ p lt le.
          let away =
            off_table lay.part (w.inode).i_no ((w.inode).i_sectors (p / 512)) (p % 512)
              stored.number (stored.apart (p / 512) le) (omega arith) in
          direct_byte disk₂ inode' p (omega arith)
          ∙ held ((w.inode).i_sectors (p / 512) * 512 + p % 512)
          ∙ rw away refl in
      (
        w',
        file_write-parts n lay w m buf count io blocks (some count, w') stored.first (omega arith)
            same ended,
        refl,
        refl,
        λ k lt.
            let sector = last k lt in
            let wrote : disk₁
                  ((w.inode).i_sectors ((old_size + k) / 512) * 512 + (old_size + k) % 512)
                ≡ m (buf + k) =
              rw sector (rw (sector, block) at (bytes k lt)) in
            kept (old_size + k) (omega arith) (omega arith) ∙ wrote,
        λ p lt.
            kept p (omega arith) (omega arith)
            ∙ elim (Bool-cases (p / 512 == old_size / 512)) [
              | inl here ↦
                  let e : p / 512 ≡ old_size / 512 = ground arith in
                  rw e (rw block at (head (p % 512) (omega arith)))
              | inr off ↦
                  let d = (w.inode).i_sectors (p / 512) * 512 + p % 512 in
                  let sector : d / 512 ≡ (w.inode).i_sectors (p / 512) = omega arith in
                  others d (λ k lk eq.
                    let target : g.all_blocks ((old_size + k) / 512)
                        ≡ (w.inode).i_sectors (old_size / 512) =
                      rw (last k lk) block in
                    stored.own (p / 512) (old_size / 512) (ground arith) (omega arith)
                      (sym sector ∙ eq ∙ target))
            ]
            ∙ sym (direct_byte w.disk w.inode p (omega arith)),
      )

-- `file_read` brings `size` bytes of the file to the buffer.
abbrev Reads : ℕ → Memory → Inode → ℕ → Memory → ℕ → ℕ → ℕ → (ℕ → ℕ) → ℕ → Type 0
Reads n disk inode pos m buf count io blocks size =
    (m' : Memory) × (file_read n disk inode pos m buf count (some io) (some blocks)
      ≡ ok (some size, m', pos + size))
    × ((k : ℕ) → k < size → m' (buf + k) ≡ file_byte disk inode (pos + k))

reads :
    (n : ℕ) (disk : Memory) (inode : Inode) (pos : ℕ) (m : Memory) (buf count io : ℕ)
    (blocks : ℕ → ℕ)
    → pos < inode.i_size
    → inode.i_size < 12 * 512
    → pos + count < 2 ^ 31
    → 0 < io
    → 0 < buf
    → Apart buf (readable inode pos count) io 512
    → readable inode pos count < n
    → Reads n disk inode pos m buf count io blocks (readable inode pos count)
reads n disk inode pos m buf count io blocks inside small word pi pb clear fuel =
    let (m', ran, read, others) =
      file_read_lem n disk inode pos m buf count io blocks inside (omega arith) word
        (λ far. absurd (omega arith)) pi pb clear fuel in
    (m', ran, read)

-- What `file_write` has appended to such a file, where the last block has room, is what `file_read`
-- brings back from the old end of the file.
pub write_then_read :
    (n : ℕ) (lay : Layout) (w : Written) (m : Memory) (buf count io : ℕ) (blocks : ℕ → ℕ) (n₂ : ℕ)
    (m₂ : Memory) (buf₂ io₂ : ℕ) (blocks₂ : ℕ → ℕ)
    → IsStored lay.part w.inode
    → ((w.inode).i_size + count) / 512 ≡ (w.inode).i_size / 512
    → 0 < count
    → 0 < io
    → 0 < buf
    → Apart buf count io 512
    → count < n
    → 0 < io₂
    → 0 < buf₂
    → Apart buf₂ count io₂ 512
    → count < n₂
    → (w' : Written) × (m' : Memory) × (file_write n lay w m buf count (some io) (some blocks)
        ≡ ok (some count, w'))
      × (file_read n₂ w'.disk w'.inode (w.inode).i_size m₂ buf₂ count (some io₂) (some blocks₂)
          ≡ ok (some count, m', (w.inode).i_size + count))
      × ((k : ℕ) → k < count → m' (buf₂ + k) ≡ m (buf + k))
write_then_read n lay w m buf count io blocks n₂ m₂ buf₂ io₂ blocks₂ stored same some_ pi pb clear
      fuel pi₂ pb₂ clear₂ fuel₂ =
    let (w', wrote, inode, bitmap, bytes, old) =
      file_write_lem n lay w m buf count io blocks stored same pi pb clear fuel in
    let direct = stored.direct in
    let pos = (w.inode).i_size in
    let size : (w'.inode).i_size ≡ pos + count = rw inode refl in
    let full : readable w'.inode pos count ≡ count =
      let reaches : ltb (w'.inode).i_size (pos + count) ≡ false = ground (arith, size) in
      rw reaches refl in
    let (m', ran, read) = subst (Reads n₂ w'.disk w'.inode pos m₂ buf₂ count io₂ blocks₂) full (
      reads n₂ w'.disk w'.inode pos m₂ buf₂ count io₂ blocks₂ (omega (arith, size))
        (omega (arith, size)) (omega arith) pi₂ pb₂ (rw full clear₂) (rw full fuel₂)) in
    (w', m', wrote, ran, λ k lt. read k lt ∙ bytes k lt)
