-- ===== src/PathName/Tests.antt =====
-- The path "//ab/c" for `path_parse` of fs/fs.c.
use seeking_os.Prelude.{
  ℕ, ◌<◌, ◌≡◌, refl, ◌≢◌, inl, inr, some, [], ◌∷◌, ◌++◌, arith, Memory, ok, ◌==◌, if◌then◌else◌,
}
use seeking_os.Str.Cstr.{IsCstr}
use seeking_os.Str.Copy.{SameOutside}
use seeking_os.PathName.{path_parse}
use seeking_os.PathName.Parse.{Stored, slashes, path_parse_lem}

abbrev memory : Memory
memory a =
    if a == 10
    then b'/'
    else if a == 11
    then b'/'
    else if a == 12
    then b'a'
    else if a == 13
    then b'b'
    else if a == 14
    then b'/'
    else if a == 15
    then b'c'
    else 0

nonzero : (c : ℕ) → 0 < c → c ≢ 0
nonzero c lt = ground arith

plain : (c : ℕ) → b'/' < c → c ≢ b'/'
plain c lt = ground arith

at : IsCstr memory 10 (slashes 2 ++ (b'a' ∷ b'b' ∷ b'/' ∷ b'c' ∷ []))
at = (
  refl,
  nonzero _ (omega arith),
  (
    refl,
    nonzero _ (omega arith),
    (
      refl,
      nonzero _ (omega arith),
      (
        refl,
        nonzero _ (omega arith),
        (refl, nonzero _ (omega arith), (refl, nonzero _ (omega arith), refl)),
      ),
    ),
  ),
)

path_parse_lem_example :
    (m : Memory) × (path_parse 9 memory 10 40 ≡ ok (some 14, m))
    × Stored m 40 (b'a' ∷ b'b' ∷ [])
    × SameOutside 40 2 memory m
path_parse_lem_example =
    path_parse_lem 2 (b'a' ∷ b'b' ∷ []) (b'/' ∷ b'c' ∷ []) 9 memory 10 40 at
      (plain _ (omega arith), (plain _ (omega arith), tt)) refl (inl (λ e. cc)) (inr (omega arith))
      (omega arith)
