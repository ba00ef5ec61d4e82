-- ===== src/Files/Counts.antt =====
-- How often an inode is open is how many slots of the file table lead to it.
use seeking_os.Prelude.{
  ℕ, zero, suc, ◌+◌, ◌≤◌, ◌<◌, ◌≡◌, refl, inl, inr, Bool, true, false, Option, none, some, arith,
  ◌==◌, Bool-cases, Option-cases, if◌then◌else◌, ==-refl,
}
use seeking_os.Files.{
  File, FileSystem, is_none, get_free_slot_in_global, pcb_fd_install, free_fd, inode_open,
  inode_close, writes, file_open, file_close, set_file, set_inode,
}
use seeking_os.Files.Slots.{get_free_slot-IsFirstFree}

abbrev pub refers : Option ℕ → ℕ → ℕ
refers none i = 0
refers (some j) i = if j == i then 1 else 0

-- How many of the first `n` slots lead to inode `i`
unfoldable pub count : ℕ → (ℕ → File) → ℕ → ℕ
count zero table i = 0
count (suc n) table i = refers (table n).fd_inode i + count n table i

refers-le : (o : Option ℕ) (i : ℕ) → refers o i ≤ 1
refers-le none i = omega arith
refers-le (some j) i = ground arith

count-le : (n : ℕ) (table : ℕ → File) (i : ℕ) → count n table i ≤ n
unfolding count
count-le zero table i = omega arith
count-le (suc n) table i = omega (arith, count-le n table i, refers-le (table n).fd_inode i)

-- A slot beyond those counted does not count.
count-beyond :
    (n k : ℕ) (table : ℕ → File) (f : File) (i : ℕ)
    → n ≤ k
    → count n (λ j. if j == k then f else table j) i ≡ count n table i
unfolding count
count-beyond zero k table f i le = refl
count-beyond (suc n) k table f i le =
    let other : (n == k) ≡ false = ground arith in
    rw other (omega (arith, count-beyond n k table f i (omega arith)))

-- A slot that changes takes its old inode from the count and adds its new one.
count-store :
    (n k : ℕ) (table : ℕ → File) (f : File) (i : ℕ)
    → k < n
    → count n (λ j. if j == k then f else table j) i + refers (table k).fd_inode i
      ≡ count n table i + refers f.fd_inode i
unfolding count
count-store zero k table f i lt = absurd (omega arith)
count-store (suc n) k table f i lt = elim (Bool-cases (n == k)) [
  | inl here ↦
      let e : n ≡ k = ground arith in
      rw (here, ← e) (omega (arith, count-beyond n n table f i (omega arith)))
  | inr off ↦ rw off (omega (arith, count-store n k table f i (ground arith)))
]

-- The count of every inode is the number of slots that lead to it.
abbrev pub IsCounted : FileSystem → Type 0
IsCounted s = (i : ℕ) → (s.open_inodes i).i_open_cnts ≡ count 32 s.file_table i

install-keeps :
    (s : FileSystem) (g : ℕ)
    → ((pcb_fd_install s g).1.file_table ≡ s.file_table)
      × ((pcb_fd_install s g).1.open_inodes ≡ s.open_inodes)
unfolding pcb_fd_install
install-keeps s g = elim (Option-cases (free_fd 5 s.fd_table 3)) [
  | inl e ↦ rw (e, pcb_fd_install) (refl, refl)
  | inr (l, e) ↦ rw (e, pcb_fd_install) (refl, refl)
]

install-IsCounted : (s : FileSystem) (g : ℕ) → IsCounted s → IsCounted (pcb_fd_install s g).1
install-IsCounted s g c = let (files, inodes) = install-keeps s g in λ i. rw (files, inodes) (c i)

-- A free slot that is given an inode which is opened once more
opened-IsCounted :
    (s : FileSystem) (k nr : ℕ) (f : File)
    → IsCounted s
    → k < 32
    → (s.file_table k).fd_inode ≡ none
    → f.fd_inode ≡ some nr
    → IsCounted (set_file (inode_open s nr) k f)
unfolding inode_open
opened-IsCounted s k nr f c lt free to = λ i.
    let slots = count-store 32 k s.file_table f i lt in
    let before : refers (s.file_table k).fd_inode i ≡ 0 = rw free refl in
    let after : refers f.fd_inode i ≡ (if nr == i then 1 else 0) = rw to refl in
    let bound = count-le 32 s.file_table i in
    let now = c i in
    let there = c nr in
    elim (Bool-cases ((s.open_inodes nr).i_open_cnts == 0)) [
      | inl closed ↦ rw (closed, inode_open) (ground arith)
      | inr shared ↦ rw (shared, inode_open) (ground arith)
    ]

-- What one flag of an inode does not change
denied-IsCounted :
    (s : FileSystem) (nr : ℕ) (deny : Bool)
    → IsCounted s
    → IsCounted (set_inode s nr (record (s.open_inodes nr) { writen_deny = deny }))
denied-IsCounted s nr deny c = λ i. elim (Bool-cases (i == nr)) [
  | inl here ↦ let e : i ≡ nr = ground arith in rw here (rw (← e) (c i))
  | inr off ↦ rw off (c i)
]

none_of : (o : Option ℕ) → is_none o ≡ true → o ≡ none
none_of none e = refl
none_of (some a) e = cc

pub free_slot_of :
    (s : FileSystem) (k : ℕ)
    → get_free_slot_in_global s ≡ some k
    → (k < 32) × ((s.file_table k).fd_inode ≡ none)
free_slot_of s k e =
    let (lo, hi, free, before) = rw e at (get_free_slot-IsFirstFree s) in
    (omega arith, none_of (s.file_table k).fd_inode free)

file_open-IsCounted :
    (s : FileSystem) (nr flag : ℕ) → IsCounted s → IsCounted (file_open s nr flag).1
unfolding file_open
file_open-IsCounted s nr flag c = elim (Option-cases (get_free_slot_in_global s)) [
  | inl full ↦ rw (full, file_open) c
  | inr (k, e) ↦
      let (lt, free) = free_slot_of s k e in
      let f : File = record { fd_pos = 0; fd_flag = flag; fd_inode = some nr } in
      let s₂ = set_file (inode_open s nr) k f in
      let c₂ = opened-IsCounted s k nr f c lt free refl in
      elim (Bool-cases (writes flag)) [
        | inl w ↦ elim (Bool-cases (s₂.open_inodes nr).writen_deny) [
          | inl denied ↦ rw (e, file_open, w, denied) c₂
          | inr granted ↦
              rw (e, file_open, w, granted)
                (install-IsCounted
                  (set_inode s₂ nr (record (s₂.open_inodes nr) { writen_deny = true })) k
                  (denied-IsCounted s₂ nr true c₂))
        ]
        | inr reads ↦ rw (e, file_open, reads) (install-IsCounted s₂ k c₂)
      ]
]

file_close-IsCounted :
    (s : FileSystem) (k nr : ℕ)
    → k < 32
    → (s.file_table k).fd_inode ≡ some nr
    → IsCounted s
    → IsCounted (file_close s k)
unfolding file_close inode_close
file_close-IsCounted s k nr lt used c = λ i.
    let slots = count-store 32 k s.file_table (record (s.file_table k) { fd_inode = none }) i lt in
    let before : refers (s.file_table k).fd_inode i ≡ (if nr == i then 1 else 0) = rw used refl in
    let bound = count-le 32 s.file_table i in
    let now = c i in
    let there = c nr in
    elim (Bool-cases (i == nr)) [
      | inl here ↦
          let e : i ≡ nr = ground arith in rw (used, file_close, here, ==-refl) (ground arith)
      | inr off ↦ rw (used, file_close, off) (ground arith)
    ]

-- In a table where each inode is counted once for each slot that leads to it, it still is after
-- `file_open`, whatever it returns, and after `file_close` of a slot in use.
pub open_and_close-IsCounted :
    (s : FileSystem) (nr flag k other : ℕ)
    → IsCounted s
    → k < 32
    → (s.file_table k).fd_inode ≡ some other
    → IsCounted (file_open s nr flag).1 × IsCounted (file_close s k)
open_and_close-IsCounted s nr flag k other c lt used =
    (file_open-IsCounted s nr flag c, file_close-IsCounted s k other lt used c)
