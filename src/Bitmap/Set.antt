-- ===== src/Bitmap/Set.antt =====
-- `bitmap_set` and `bitmap_init` against the bits that `bitmap_scan_test` reads.
use seeking_os.Prelude.{
  ℕ, zero, suc, ◌+◌, ◌*◌, ◌/◌, ◌%◌, ◌≤◌, ◌<◌, ◌≡◌, refl, true, panic, leb, ltb, ◌&&◌, ◌||◌,
  store-IsBytes, ==-refl, ◌≢◌, inl, inr, false, arith, Memory, store, IsBytes, ok, ◌==◌, Bool-cases,
  if◌then◌else◌,
}
use seeking_os.Str.{fill}
use seeking_os.Bitmap.Byte.{with_bit, bit_of-with_bit, with_bit-lt, bit_of_zero}
use seeking_os.Bitmap.Scan.{IsValid}
use seeking_os.Bitmap.{Bitmap, bitmap_init, bitmap_scan_test, bitmap_set}

-- `b'` is `b` with bit `i` set to `v`; no other byte of memory is written.
pub record Updated (b : Bitmap) (i v : ℕ) (b' : Bitmap) : Type 0 where
  pub valid : IsValid b'
  pub len : b'.btmp_bytes_len ≡ b.btmp_bytes_len
  pub bit : (j : ℕ) → bitmap_scan_test b' j ≡ (if i == j then v == 1 else bitmap_scan_test b j)
  pub frame : (a : ℕ) → a ≢ i / 8 → b'.bits a ≡ b.bits a

-- A bit of the byte that is written is the bit asked for exactly if the offsets agree.
test-store :
    (b : Bitmap) (i v j : ℕ)
    → IsBytes b.bits
    → v < 2
    → bitmap_scan_test
        (record b { bits = store b.bits (i / 8) (with_bit (b.bits (i / 8)) (i % 8) v) })
        j
      ≡ (if i == j then v == 1 else bitmap_scan_test b j)
unfolding bitmap_scan_test
test-store b i v j bytes hv = elim (Bool-cases (j / 8 == i / 8)) [
  | inl here ↦
      let e : i / 8 ≡ j / 8 = ground arith in
      let offsets : (i % 8 == j % 8) ≡ (i == j) = ground arith in
      rw (e, ==-refl)
        (rw (
          bit_of-with_bit (b.bits (j / 8)) (i % 8) v (j % 8) (bytes (j / 8)) (omega arith)
              (omega arith) hv,
          offsets,
        ))
  | inr away ↦ let other : (i == j) ≡ false = ground arith in rw (away, other)
]

-- `bitmap_set` with 0 or 1 on a valid bitmap succeeds, changes that bit alone, and writes only the
-- byte of the bit.
pub bitmap_set-Updated :
    (b : Bitmap) (i v : ℕ)
    → IsValid b
    → v < 2
    → (b' : Bitmap) × (bitmap_set b i v ≡ ok b') × Updated b i v b'
unfolding bitmap_set
bitmap_set-Updated b i v valid hv =
    let accepted : (v == 0 || v == 1) ≡ true = ground arith in
    (
      _,
      rw accepted,
      record {
        valid = record {
          bytes = store-IsBytes b.bits (i / 8) _ valid.bytes (with_bit-lt _ _ v);
          small = valid.small;
        };
        len = refl;
        bit = λ j. test-store b i v j valid.bytes hv;
        frame = λ a ne. ground arith;
      },
    )

-- Any other value fails the ASSERT.
bitmap_set_panic : (b : Bitmap) (i v : ℕ) → 2 ≤ v → bitmap_set b i v ≡ panic
unfolding bitmap_set
bitmap_set_panic b i v h = ground arith

fill_get :
    (size : ℕ) (m : Memory) (dst value a : ℕ)
    → fill m dst value size a ≡ (if leb dst a && ltb a (dst + size) then value else m a)
unfolding fill
fill_get zero m dst value a = ground arith
fill_get (suc size) m dst value a =
    ground (arith, fill_get size (store m dst value) (dst + 1) value a)

-- After `bitmap_init` every bit is 0, and the memory behind the bitmap is as it was.
pub bitmap_init_lem :
    (b : Bitmap)
    → ((j : ℕ) → j < b.btmp_bytes_len * 8 → bitmap_scan_test (bitmap_init b) j ≡ false)
      × ((a : ℕ) → b.btmp_bytes_len ≤ a → (bitmap_init b).bits a ≡ b.bits a)
unfolding bitmap_init bitmap_scan_test
bitmap_init_lem b = (
  λ j lt.
      ground
        (arith, fill_get b.btmp_bytes_len b.bits 0 0 (j / 8), bit_of_zero (j % 8) (omega arith)),
  λ a le. ground (arith, fill_get b.btmp_bytes_len b.bits 0 0 a),
)
