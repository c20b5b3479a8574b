-- ===== src/Base/Integers.antt =====
-- Integers over the native numbers, for what Python's `int` reads.
use Prim.Native.Nat.{ℕ, ◌+◌, ◌-◌}
use mathlib.Core.Bool.{Bool, true, false}
use tcd_oran_testbed_integra.Base.Tests.{ltb, leb, if◌then◌else◌}

-- `negsuc n` is -(n + 1).
pub data ℤ : Type 0 where
  pos negsuc : ℕ → ℤ

-- `n < z`
abbrev pub is_below : ℕ → ℤ → Bool
is_below n (pos m) = ltb n m
is_below n (negsuc m) = false

-- `n - z > limit`, which is false where the difference is negative
abbrev pub exceeds : ℕ → ℤ → ℕ → Bool
exceeds n (pos m) limit = ltb (m + limit) n
exceeds n (negsuc m) limit = ltb limit (n + m + 1)

-- `a - b`
infix 60 ◌⊖◌
abbrev pub ◌⊖◌ : ℕ → ℕ → ℤ
a ⊖ b = if leb b a then pos (a - b) else negsuc (b - a - 1)

-- `a < b`
abbrev pub less : ℤ → ℤ → Bool
less (pos a) (pos b) = ltb a b
less (pos a) (negsuc b) = false
less (negsuc a) (pos b) = true
less (negsuc a) (negsuc b) = ltb b a
