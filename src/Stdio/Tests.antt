-- ===== src/Stdio/Tests.antt =====
-- Numbers and a format for lib/stdio.c.
use seeking_os.Prelude.{ℕ, ◌+◌, ◌≡◌, List, [], ◌∷◌, arith, ok}
use seeking_os.Stdio.{itoa, vsprintf}
use seeking_os.Stdio.Digits.{Written, itoa-Written}
use seeking_os.Stdio.Format.{Piece, literal, hex, decimal, format_of, Rendered, vsprintf-Rendered}

itoa-Written_example : (cs : List ℕ) × (itoa 256 255 16 ≡ ok cs) × Written 255 16 cs
itoa-Written_example = itoa-Written 256 255 16 (omega arith) (omega arith) (omega arith)

abbrev pieces : List Piece
pieces = literal b'=' (λ e. absurd (omega (arith, e))) ∷ decimal ∷ hex ∷ []

vsprintf-Rendered_example :
    (out : List ℕ) × (vsprintf (format_of pieces) (λ i. 12 + i) 1 (λ p. []) ≡ ok out)
    × Rendered (λ i. 12 + i) (λ p. []) 1 pieces out
vsprintf-Rendered_example = vsprintf-Rendered pieces (λ i. 12 + i) 1 (λ p. [])
