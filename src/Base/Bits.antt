-- ===== src/Base/Bits.antt =====
-- Laws of the bit operations that hold on a small range, by evaluation of every case.
use Prim.Native.Nat.{ℕ, zero, suc, ◌<◌, bit_and, bit_and-bitwise}
use mathlib.Core.Path.{◌≡◌}
use mathlib.Core.Bool.{Bool, true, false}
use mathlib.Core.Logic.{inl, inr}
use chouryos.Base.Tests.{◌==◌, if◌then◌else◌, Bool-cases, ==_iff}
use native.Mathlib.Omega.{arith}

-- The test passes at every number below the bound.
unfoldable pub holds_below : ℕ → (ℕ → Bool) → Bool
holds_below zero test = true
holds_below (suc bound) test = if test bound then holds_below bound test else false

-- So it passes at the number that is asked for.
pub holds_below_at :
    (bound : ℕ) (test : ℕ → Bool) (k : ℕ)
    → holds_below bound test ≡ true
    → k < bound
    → test k ≡ true
unfolding holds_below
holds_below_at zero test k all small = absurd (omega arith)
holds_below_at (suc bound) test k all small = elim (Bool-cases (test bound)) [
  | inl now ↦ elim (Bool-cases (k == bound)) [
    | inl here ↦ rw ((==_iff k bound).0 here) now
    | inr below ↦ holds_below_at bound test k (ground (arith, all)) (ground arith)
  ]
  | inr never ↦ absurd (ground (arith, all))
]

pub zero-bit_and : (b : ℕ) → bit_and 0 b ≡ 0
zero-bit_and b = bit_and-bitwise 0 b
