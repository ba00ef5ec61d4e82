-- ===== src/Directory/Sector.antt =====
-- The loop over the entries of a sector finds the first with the name.
use seeking_os.Prelude.{
  ℕ, zero, suc, ◌+◌, ◌*◌, ◌≤◌, ◌<◌, ◌≡◌, refl, ◌≢◌, ◌⊎◌, inl, inr, true, false, Bool-cases, List,
  arith, Memory, IsBytes, none, some, ok, length, ◌==◌, ◌∙◌,
}
use seeking_os.Str.{Sign, strcmp}
use seeking_os.Str.Cstr.{IsCstr}
use seeking_os.Str.Compare.{order, strcmp_lem}
use seeking_os.Directory.{entry_bytes, is_same, search_sector}

same-nil : (s : Sign) → is_same s ≡ true → s ≡ Sign.nil
same-nil Sign.minus e = cc
same-nil Sign.nil e = refl
same-nil Sign.plus e = cc

nil-same : (s : Sign) → s ≡ Sign.nil → is_same s ≡ true
nil-same s e = rw e refl

-- `e` is the first from `from` on with the name `ys`.
abbrev pub IsFirstName : (ℕ → List ℕ) → List ℕ → ℕ → ℕ → Type 0
IsFirstName names ys from e = (names e ≡ ys) × ((i : ℕ) → from ≤ i → i < e → names i ≢ ys)

hit_first :
    (left n : ℕ) (m : Memory) (p_de name : ℕ) (compared : Sign)
    → strcmp n m p_de name ≡ ok compared
    → is_same compared ≡ true
    → search_sector (suc left) n m p_de name ≡ ok (some p_de)
unfolding search_sector
hit_first left n m p_de name compared ran hit = rw ran (ground arith)

miss_first :
    (left n : ℕ) (m : Memory) (p_de name : ℕ) (compared : Sign)
    → strcmp n m p_de name ≡ ok compared
    → is_same compared ≡ false
    → search_sector (suc left) n m p_de name ≡ search_sector left n m (p_de + entry_bytes) name
unfolding search_sector
miss_first left n m p_de name compared ran miss = rw ran (ground arith)

pub search_sector_lem :
    (left n : ℕ) (m : Memory) (base p_de name from : ℕ) (names : ℕ → List ℕ) (ys : List ℕ)
    → IsBytes m
    → IsCstr m name ys
    → 0 < name
    → 0 < base
    → p_de ≡ base + from * entry_bytes
    → ((e : ℕ) → from ≤ e → e < from + left → IsCstr m (base + e * entry_bytes) (names e))
    → ((e : ℕ) → from ≤ e → e < from + left → length (names e) < n)
    → ((e : ℕ) × (from ≤ e)
        × (e < from + left)
        × (search_sector left n m p_de name ≡ ok (some (base + e * entry_bytes)))
        × IsFirstName names ys from e)
      ⊎ ((search_sector left n m p_de name ≡ ok none)
          × ((e : ℕ) → from ≤ e → e < from + left → names e ≢ ys))
unfolding search_sector
search_sector_lem zero n m base p_de name from names ys bytes s real_name real at stored short =
    inr (refl, λ e lo hi. absurd (omega arith))
search_sector_lem (suc left) n m base p_de name from names ys bytes s real_name real at stored
      short =
    let here : IsCstr m p_de (names from) = rw at (stored from (omega arith) (omega arith)) in
    let (ran, agree) =
      strcmp_lem (names from) ys n m p_de name bytes here s (omega (arith, at)) real_name
        (short from (omega arith) (omega arith)) in
    elim (Bool-cases (is_same (order (names from) ys))) [
      | inl hit ↦ inl (
        from,
        omega arith,
        omega arith,
        hit_first left n m p_de name (order (names from) ys) ran hit ∙ rw at refl,
        (agree.0 (same-nil (order (names from) ys) hit), λ i lo hi. absurd (omega arith)),
      )
      | inr miss ↦
          let other : names from ≢ ys =
            λ e. let no_ = nil-same (order (names from) ys) (agree.1 e) in cc in
          let step = miss_first left n m p_de name (order (names from) ys) ran miss in
          let rest =
            search_sector_lem left n m base (p_de + entry_bytes) name (from + 1) names ys bytes s
              real_name real (omega arith) (λ e lo hi. stored e (omega arith) (omega arith))
              (λ e lo hi. short e (omega arith) (omega arith)) in
          elim rest [
            | inl (e, lo, hi, ran', (this, first)) ↦ inl (
              e,
              omega arith,
              omega arith,
              step ∙ ran',
              (
                this,
                λ i le lt. elim (Bool-cases (i == from)) [
                  | inl start ↦ let i≡ : i ≡ from = ground arith in rw i≡ other
                  | inr later ↦ first i (ground arith) lt
                ],
              ),
            )
            | inr (ran', none_) ↦ inr (
              step ∙ ran',
              λ i le lt. elim (Bool-cases (i == from)) [
                | inl start ↦ let i≡ : i ≡ from = ground arith in rw i≡ other
                | inr later ↦ none_ i (ground arith) (omega arith)
              ],
            )
          ]
    ]
