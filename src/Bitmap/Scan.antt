-- ===== src/Bitmap/Scan.antt =====
-- `bitmap_scan` finds the first run of free bits.
use seeking_os.Prelude.{
  ℕ, zero, suc, ◌+◌, ◌-◌, ◌*◌, ◌/◌, ◌%◌, ◌^◌, ◌≤◌, ◌<◌, ◌&&◌, ◌≡◌, refl, subst, ◌≢◌, inl, inr, true,
  false, Option, none, some, arith, IsBytes, ok, panic, ◌==◌, leb, ltb, Bool-cases, add32, sub32,
}
use seeking_os.Bitmap.Byte.{bit_of, bit_of_eight, eq_of_all_bits, bit_of_full}
use seeking_os.Bitmap.{
  Bitmap, bitmap_scan_test, find_byte, find_bit, scan_run, scan_from, bitmap_scan,
}

-- Memory holds bytes, and a bit index fits an `int`.
pub record IsValid (btmp : Bitmap) : Type 0 where
  pub bytes : IsBytes btmp.bits
  pub small : btmp.btmp_bytes_len * 8 < 2 ^ 31

-- The bits from `s` to `s + cnt` are 0.
abbrev pub IsFreeRun : Bitmap → ℕ → ℕ → Type 0
IsFreeRun btmp cnt s = (j : ℕ) → s ≤ j → j < s + cnt → bitmap_scan_test btmp j ≡ false

-- What the search is for: the first run of `cnt` free bits, or `none` where there is none.
abbrev pub IsFirstRun : Bitmap → ℕ → Option ℕ → Type 0
IsFirstRun btmp cnt none = (s : ℕ) → s + cnt ≤ btmp.btmp_bytes_len * 8 → ¬ IsFreeRun btmp cnt s
IsFirstRun btmp cnt (some s) =
    (s + cnt ≤ btmp.btmp_bytes_len * 8)
    × IsFreeRun btmp cnt s
    × ((t : ℕ) → t < s → ¬ IsFreeRun btmp cnt t)

record FirstBit (byte k : ℕ) : Type 0 where
  inside : k < 8
  free : bit_of byte k ≡ false
  before : (j : ℕ) → j < k → bit_of byte j ≡ true

extend : (P : ℕ → Type 0) (n : ℕ) → ((j : ℕ) → j < n → P j) → P n → (j : ℕ) → j < n + 1 → P j
extend P n h p j lt = elim (Bool-cases (j == n)) [
  | inl e ↦ subst P (ground arith) p
  | inr e ↦ h j (ground arith)
]

inside_of_free :
    (byte k : ℕ)
    → byte < 256
    → byte ≢ 255
    → k ≤ 8
    → ((j : ℕ) → j < k → bit_of byte j ≡ true)
    → k < 8
inside_of_free byte k hb ne le h = elim (Bool-cases (k == 8)) [
  | inl e ↦ absurd (ne (eq_of_all_bits byte hb (λ j lt. h j (ground arith))))
  | inr e ↦ ground arith
]

find_bit_lem :
    (n byte idx_bit : ℕ)
    → byte < 256
    → byte ≢ 255
    → n + idx_bit ≡ 9
    → idx_bit ≤ 8
    → ((j : ℕ) → j < idx_bit → bit_of byte j ≡ true)
    → (k : ℕ) × (find_bit n byte idx_bit ≡ ok k) × FirstBit byte k
unfolding find_bit
find_bit_lem zero byte idx hb ne e le h = absurd (omega arith)
find_bit_lem (suc n) byte idx hb ne e le h = elim (Bool-cases (bit_of byte idx)) [
  | inl set ↦ rw set (
      find_bit_lem n byte (idx + 1) hb ne (omega arith) (ground (arith, bit_of_eight byte hb))
        (extend (λ j. bit_of byte j ≡ true) idx h set))
  | inr free ↦ (
    idx,
    rw free,
    record { inside = inside_of_free byte idx hb ne le h; free = free; before = h },
  )
]

find_byte_lem :
    (n idx_byte : ℕ) (btmp : Bitmap)
    → n + idx_byte ≡ suc btmp.btmp_bytes_len
    → idx_byte ≤ btmp.btmp_bytes_len
    → ((j : ℕ) → j < idx_byte → btmp.bits j ≡ 255)
    → (k : ℕ) × (find_byte n btmp idx_byte ≡ ok k)
      × (k ≤ btmp.btmp_bytes_len)
      × ((j : ℕ) → j < k → btmp.bits j ≡ 255)
      × (k < btmp.btmp_bytes_len → btmp.bits k ≢ 255)
unfolding find_byte
find_byte_lem zero idx btmp e le h = absurd (omega arith)
find_byte_lem (suc n) idx btmp e le h =
    elim (Bool-cases (0xff == btmp.bits idx && ltb idx btmp.btmp_bytes_len)) [
      | inl more ↦ rw more (
          find_byte_lem n (idx + 1) btmp (omega arith) (ground arith)
            (extend (λ j. btmp.bits j ≡ 255) idx h (ground arith)))
      | inr stop ↦ (idx, rw stop, le, h, λ lt. ground arith)
    ]

module _ (btmp : Bitmap) (cnt : ℕ) (pos : 1 ≤ cnt) (word : cnt < 2 ^ 32)
    (small : btmp.btmp_bytes_len * 8 < 2 ^ 31) where
  -- A run that would start behind the last set bit is too short to end here.
  no_run_through :
      (next s : ℕ)
      → bitmap_scan_test btmp next ≡ true
      → ((t : ℕ) → t < s → ¬ IsFreeRun btmp cnt t)
      → next < s + cnt
      → (t : ℕ) → t < next + 1
      → ¬ IsFreeRun btmp cnt t
  no_run_through next s set none_before near t lt run = elim (Bool-cases (ltb t s)) [
    | inl e ↦ none_before t (ground arith) run
    | inr e ↦ ground (arith, run next)
  ]

  -- `count` free bits lie before `next_bit`, from `s` on, and no run starts before `s`.
  scan_run-IsFirstRun :
      (bit_left s count next_bit : ℕ)
      → next_bit ≡ s + count
      → next_bit + bit_left ≡ btmp.btmp_bytes_len * 8
      → count < cnt
      → IsFreeRun btmp count s
      → ((t : ℕ) → t < s → ¬ IsFreeRun btmp cnt t)
      → IsFirstRun btmp cnt (scan_run bit_left btmp cnt next_bit count)
  unfolding scan_run
  scan_run-IsFirstRun zero s count next e end lt run none_before =
      λ t fits. none_before t (omega arith)
  scan_run-IsFirstRun (suc left) s count next e end lt run none_before =
      let next' : add32 next 1 ≡ next + 1 = omega arith in
      elim (Bool-cases (bitmap_scan_test btmp next)) [
        | inl set ↦
            let more : (0 == cnt) ≡ false = ground arith in
            rw (set, more, next')
              (scan_run-IsFirstRun left (next + 1) 0 (next + 1) (omega arith) (omega arith) pos
                (λ j le lt. absurd (omega arith))
                (no_run_through next s set none_before (omega arith)))
        | inr free ↦
            let count' : add32 count 1 ≡ count + 1 = omega arith in
            let run' : IsFreeRun btmp (count + 1) s = longer next e free in
            elim (Bool-cases (count + 1 == cnt)) [
              | inl done ↦
                  let start : add32 (sub32 next cnt) 1 ≡ s = ground arith in
                  rw (free, count', done, start)
                    (ground arith, λ j le lt. run' j le (ground arith), none_before)
              | inr more ↦
                  rw (free, count', more, next')
                    (scan_run-IsFirstRun left s (count + 1) (next + 1) (omega arith) (omega arith)
                      (ground arith) run' none_before)
            ]
      ]
    where
      longer :
          (n : ℕ) → n ≡ s + count → bitmap_scan_test btmp n ≡ false → IsFreeRun btmp (count + 1) s
      longer n e free j le lt = elim (Bool-cases (j == n)) [
        | inl here ↦ ground arith
        | inr other ↦ run j le (ground arith)
      ]

-- The first free bit: every bit before it is 1.
record IsFirstFree (btmp : Bitmap) (start : ℕ) : Type 0 where
  inside : start < btmp.btmp_bytes_len * 8
  free : bitmap_scan_test btmp start ≡ false
  before : (t : ℕ) → t < start → bitmap_scan_test btmp t ≡ true

first_free :
    (btmp : Bitmap) (k i : ℕ)
    → k < btmp.btmp_bytes_len
    → ((j : ℕ) → j < k → btmp.bits j ≡ 255)
    → FirstBit (btmp.bits k) i
    → IsFirstFree btmp (k * 8 + i)
unfolding bitmap_scan_test
first_free btmp k i lt full bit = record {
  inside = omega arith;
  free =
      let byte : (k * 8 + i) / 8 ≡ k = omega arith in
      let odd : (k * 8 + i) % 8 ≡ i = omega arith in rw (byte, odd) bit.free;
  before = λ t tlt. elim (Bool-cases (t / 8 == k)) [
    | inl here ↦ let byte : t / 8 ≡ k = ground arith in rw byte (bit.before (t % 8) (omega arith))
    | inr lower ↦ rw (full (t / 8) (ground arith)) (bit_of_full (t % 8) (omega arith))
  ];
}

scan_from-IsFirstRun :
    (btmp : Bitmap) (cnt start : ℕ)
    → 1 ≤ cnt
    → cnt < 2 ^ 32
    → btmp.btmp_bytes_len * 8 < 2 ^ 31
    → IsFirstFree btmp start
    → IsFirstRun btmp cnt (scan_from btmp cnt start)
unfolding scan_from
scan_from-IsFirstRun btmp cnt start pos word small first = elim (Bool-cases (cnt == 1)) [
  | inl one ↦ rw one (ground arith, λ j le lt. only j le (ground arith), none_before)
  | inr more ↦
      let left : sub32 (sub32 (btmp.btmp_bytes_len * 8) start) 1
          ≡ btmp.btmp_bytes_len * 8 - start - 1 =
        omega arith in
      let next : add32 start 1 ≡ start + 1 = omega arith in
      rw (more, left, next)
        (scan_run-IsFirstRun btmp cnt pos word small (btmp.btmp_bytes_len * 8 - start - 1) start 1
          (start + 1) refl (omega arith) (ground arith) only none_before)
]
  where
    open first use {inside, free, before}

    only : IsFreeRun btmp 1 start
    only j le lt = let here : j ≡ start = omega arith in rw here free

    none_before : (t : ℕ) → t < start → ¬ IsFreeRun btmp cnt t
    none_before t lt run = ground (arith, run t, before t)

inside_of_free_bit :
    (btmp : Bitmap) (f k : ℕ)
    → f < btmp.btmp_bytes_len * 8
    → bitmap_scan_test btmp f ≡ false
    → k ≤ btmp.btmp_bytes_len
    → ((j : ℕ) → j < k → btmp.bits j ≡ 255)
    → k < btmp.btmp_bytes_len
unfolding bitmap_scan_test
inside_of_free_bit btmp f k inside free le full = elim (Bool-cases (k == btmp.btmp_bytes_len)) [
  | inl e ↦
      let byte : btmp.bits (f / 8) ≡ 255 = full (f / 8) (ground arith) in
      ground (arith, bit_of_full (f % 8) (omega arith))
  | inr e ↦ ground arith
]

-- With a free bit in a bitmap of bytes whose bit indices fit an `int`, and a count of 1 or more,
-- `bitmap_scan` returns the first run of `cnt` free bits that lies in the bitmap, and -1 exactly
-- where there is no such run.
pub bitmap_scan-IsFirstRun :
    (btmp : Bitmap) (cnt f : ℕ)
    → IsValid btmp
    → 1 ≤ cnt
    → cnt < 2 ^ 32
    → f < btmp.btmp_bytes_len * 8
    → bitmap_scan_test btmp f ≡ false
    → (r : Option ℕ) × (bitmap_scan btmp cnt ≡ ok r) × IsFirstRun btmp cnt r
unfolding bitmap_scan
bitmap_scan-IsFirstRun btmp cnt f v pos word in_range free =
    let (k, found, le, full, at) =
      find_byte_lem (suc btmp.btmp_bytes_len) 0 btmp (omega arith) (omega arith)
        (λ j lt. absurd (omega arith)) in
    let lt : k < btmp.btmp_bytes_len = inside_of_free_bit btmp f k in_range free le full in
    let (i, bit, first) =
      find_bit_lem 9 (btmp.bits k) 0 (v.bytes k) (at lt) (omega arith) (omega arith)
        (λ j lt. absurd (omega arith)) in
    let go : (k == btmp.btmp_bytes_len) ≡ false = ground arith in
    let pos' : leb 1 cnt ≡ true = ground arith in
    let lt' : ltb k btmp.btmp_bytes_len ≡ true = ground arith in
    (
      scan_from btmp cnt (k * 8 + i),
      rw (pos', found, lt', go, bit),
      scan_from-IsFirstRun btmp cnt (k * 8 + i) pos word v.small
          (first_free btmp k i lt full first),
    )

byte_full :
    (btmp : Bitmap) (k : ℕ)
    → IsBytes btmp.bits
    → k < btmp.btmp_bytes_len
    → ((j : ℕ) → j < btmp.btmp_bytes_len * 8 → bitmap_scan_test btmp j ≡ true)
    → btmp.bits k ≡ 255
unfolding bitmap_scan_test
byte_full btmp k bytes lt full = eq_of_all_bits (btmp.bits k) (bytes k) λ i ilt.
    let byte : (k * 8 + i) / 8 ≡ k = omega arith in
    let odd : (k * 8 + i) % 8 ≡ i = omega arith in
    rw (byte, odd) at (full (k * 8 + i) (omega arith))

-- On a valid bitmap with no free bit `bitmap_scan` fails its ASSERT, and never returns -1.
pub bitmap_scan_full :
    (btmp : Bitmap) (cnt : ℕ)
    → ((j : ℕ) → j < btmp.btmp_bytes_len * 8 → bitmap_scan_test btmp j ≡ true)
    → IsValid btmp
    → bitmap_scan btmp cnt ≡ panic
unfolding bitmap_scan
bitmap_scan_full btmp cnt full v =
    let (k, found, le, before, at) =
      find_byte_lem (suc btmp.btmp_bytes_len) 0 btmp (omega arith) (omega arith)
        (λ j lt. absurd (omega arith)) in
    let stop : ltb k btmp.btmp_bytes_len ≡ false =
      ground (arith, λ (lt : k < btmp.btmp_bytes_len). at lt (byte_full btmp k v.bytes lt full)) in
    elim (Bool-cases (leb 1 cnt)) [ inl pos ↦ rw (pos, found, stop) | inr zero_cnt ↦ rw zero_cnt ]
