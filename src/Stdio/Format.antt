-- ===== src/Stdio/Format.antt =====
-- `vsprintf` renders a format piece by piece.
use seeking_os.Prelude.{
  ℕ, suc, ◌+◌, ◌-◌, ◌%◌, ◌^◌, ◌≤◌, ◌<◌, ◌⊎◌, ◌≡◌, refl, ◌≢◌, inl, inr, List, [], ◌∷◌, ◌++◌, arith,
  ok, ◌>>=◌, ◌==◌, ltb, Bool-cases,
}
use seeking_os.Stdio.{put_unsigned, put_signed, vsprintf}
use seeking_os.Stdio.Digits.{Written, itoa-Written}

-- A format is made of characters that are no `%`, and of the four directives.
pub data Piece : Type 0 where
  literal : (c : ℕ) → c ≢ b'%' → Piece
  hex text char decimal : Piece

abbrev pub format_of : List Piece → List ℕ
format_of [] = []
format_of (literal c _ ∷ ps) = c ∷ format_of ps
format_of (hex ∷ ps) = b'%' ∷ b'x' ∷ format_of ps
format_of (text ∷ ps) = b'%' ∷ b's' ∷ format_of ps
format_of (char ∷ ps) = b'%' ∷ b'c' ∷ format_of ps
format_of (decimal ∷ ps) = b'%' ∷ b'd' ∷ format_of ps

-- The digits of the magnitude, behind a sign if the `int` is negative
abbrev pub IsDecimal : ℕ → List ℕ → Type 0
IsDecimal word [] = ⊥
IsDecimal word (c ∷ cs) =
    ((word < 2 ^ 31) × Written word 10 (c ∷ cs))
    ⊎ ((2 ^ 31 ≤ word) × (c ≡ b'-') × Written (2 ^ 32 - word) 10 cs)

-- `out` is the format with each directive replaced by its word.
pub data Rendered (words : ℕ → ℕ) (strings : ℕ → List ℕ) : ℕ → List Piece → List ℕ → Type 0 where
  end : {ap : ℕ} → Rendered words strings ap [] []
  same :
      {ap : ℕ} {ps : List Piece} {out : List ℕ} (c : ℕ) (ne : c ≢ b'%')
      → Rendered words strings ap ps out
      → Rendered words strings ap (literal c ne ∷ ps) (c ∷ out)
  as_hex :
      {ap : ℕ} {ps : List Piece} {out : List ℕ} (cs : List ℕ)
      → Written (words ap) 16 cs
      → Rendered words strings (ap + 1) ps out
      → Rendered words strings ap (hex ∷ ps) (cs ++ out)
  as_text :
      {ap : ℕ} {ps : List Piece} {out : List ℕ}
      → Rendered words strings (ap + 1) ps out
      → Rendered words strings ap (text ∷ ps) (strings (words ap) ++ out)
  as_char :
      {ap : ℕ} {ps : List Piece} {out : List ℕ}
      → Rendered words strings (ap + 1) ps out
      → Rendered words strings ap (char ∷ ps) ((words ap % 256) ∷ out)
  as_decimal :
      {ap : ℕ} {ps : List Piece} {out : List ℕ} (cs : List ℕ)
      → IsDecimal (words ap) cs
      → Rendered words strings (ap + 1) ps out
      → Rendered words strings ap (decimal ∷ ps) (cs ++ out)

put_unsigned_lem :
    (word base : ℕ)
    → 1 < base
    → base ≤ 16
    → (cs : List ℕ) × (put_unsigned word base ≡ ok cs) × Written word base cs
unfolding put_unsigned
put_unsigned_lem word base lo hi = itoa-Written (suc word) word base lo hi (omega arith)

positive : (word : ℕ) (cs : List ℕ) → word < 2 ^ 31 → Written word 10 cs → IsDecimal word cs
positive word [] lt w = absurd w.some_digit
positive word (c ∷ cs) lt w = inl (lt, w)

put_signed_lem : (word : ℕ) → (cs : List ℕ) × (put_signed word ≡ ok cs) × IsDecimal word cs
unfolding put_signed
put_signed_lem word = elim (Bool-cases (ltb word (2 ^ 31))) [
  | inl pos ↦
      let (cs, ran, w) = put_unsigned_lem word 10 (omega arith) (omega arith) in
      (cs, rw pos ran, positive word cs (ground arith) w)
  | inr neg ↦
      let (cs, ran, w) = put_unsigned_lem (2 ^ 32 - word) 10 (omega arith) (omega arith) in
      (b'-' ∷ cs, rw (neg, ran), inr (ground arith, refl, w))
]

vsprintf-literal :
    (l : List ℕ) (c : ℕ) (words : ℕ → ℕ) (ap : ℕ) (strings : ℕ → List ℕ)
    → c ≢ b'%'
    → vsprintf (c ∷ l) words ap strings ≡ (vsprintf l words ap strings >>= λ out. ok (c ∷ out))
unfolding vsprintf
vsprintf-literal [] c words ap strings ne = ground arith
vsprintf-literal (d ∷ l) c words ap strings ne = elim (Bool-cases (c == b'%')) [
  | inl is ↦ absurd (ne (ground arith))
  | inr isnt ↦ rw isnt refl
]

-- `vsprintf` renders every format that is made of ordinary characters and the four directives, each
-- directive replaced by its word.
pub vsprintf-Rendered :
    (ps : List Piece) (words : ℕ → ℕ) (ap : ℕ) (strings : ℕ → List ℕ)
    → (out : List ℕ) × (vsprintf (format_of ps) words ap strings ≡ ok out)
      × Rendered words strings ap ps out
unfolding vsprintf
vsprintf-Rendered [] words ap strings = ([], refl, end)
vsprintf-Rendered (literal c ne ∷ ps) words ap strings =
    let (out, ran, r) = vsprintf-Rendered ps words ap strings in
    (c ∷ out, rw (vsprintf-literal (format_of ps) c words ap strings ne, ran), same c ne r)
vsprintf-Rendered (hex ∷ ps) words ap strings =
    let (cs, ran, w) = put_unsigned_lem (words ap) 16 (omega arith) (omega arith) in
    let (out, ran', r) = vsprintf-Rendered ps words (ap + 1) strings in
    (cs ++ out, rw (ran, ran'), as_hex cs w r)
vsprintf-Rendered (text ∷ ps) words ap strings =
    let (out, ran', r) = vsprintf-Rendered ps words (ap + 1) strings in
    (strings (words ap) ++ out, rw ran', as_text r)
vsprintf-Rendered (char ∷ ps) words ap strings =
    let (out, ran', r) = vsprintf-Rendered ps words (ap + 1) strings in
    ((words ap % 256) ∷ out, rw ran', as_char r)
vsprintf-Rendered (decimal ∷ ps) words ap strings =
    let (cs, ran, w) = put_signed_lem (words ap) in
    let (out, ran', r) = vsprintf-Rendered ps words (ap + 1) strings in
    (cs ++ out, rw (ran, ran'), as_decimal cs w r)
