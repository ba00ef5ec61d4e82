-- ===== src/Prelude/Flat.antt =====
-- Flat byte memory: an address holds a byte, and a write changes one address.
use Prim.Native.Nat.{ℕ, ◌<◌}
use native.Mathlib.Omega.{arith}
use seeking_os.Prelude.Tests.{◌==◌, if◌then◌else◌}

abbrev pub Memory : Type 0
Memory = ℕ → ℕ

abbrev pub store : Memory → ℕ → ℕ → Memory
store m p v a = if a == p then v else m a

-- Every address holds a byte.
abbrev pub IsBytes : Memory → Type 0
IsBytes m = (a : ℕ) → m a < 256

pub store-IsBytes : (m : Memory) (p v : ℕ) → IsBytes m → v < 256 → IsBytes (store m p v)
store-IsBytes m p v h hv a = ground (arith, h a)
