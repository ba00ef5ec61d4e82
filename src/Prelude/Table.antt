-- ===== src/Prelude/Table.antt =====
-- A statement about all numbers below a bound, checked by evaluation.
use Prim.Native.Nat.{ℕ, zero, suc, ◌<◌}
use mathlib.Core.Path.{◌≡◌, refl}
use mathlib.Core.Bool.{Bool, true, ◌&&◌}
use native.Mathlib.Omega.{arith}

unfoldable pub all_below : (bound : ℕ) (test : ℕ → Bool) → Bool
all_below zero test = true
all_below (suc bound) test = all_below bound test && test bound

pub all_below_complete :
    (bound : ℕ) (test : ℕ → Bool)
    → ((i : ℕ) → i < bound → test i ≡ true)
    → all_below bound test ≡ true
unfolding all_below
all_below_complete zero test every = refl
all_below_complete (suc bound) test every =
    let below = all_below_complete bound test (λ i lt. every i (omega arith)) in
    ground (arith, below, every bound (omega arith))

-- What a table that evaluates to `true` says of an entry.
pub all_below_sound :
    (bound : ℕ) (test : ℕ → Bool) (i : ℕ) → all_below bound test ≡ true → i < bound → test i ≡ true
unfolding all_below
all_below_sound zero test i table inside = absurd (omega arith)
all_below_sound (suc bound) test i table inside = ground (arith, all_below_sound bound test i)
