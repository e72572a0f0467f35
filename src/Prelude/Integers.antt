-- ===== src/Prelude/Integers.antt =====
-- The integers, as status codes: a signed number of C, with the tests on it.
use Prim.Native.Nat.{ℕ, zero, suc}
use mathlib.Core.Bool.{Bool, true, false}
use smbusb.Prelude.Tests.{ltb, ◌==◌}

pub data ℤ : Type 0 where
  pos : ℕ → ℤ
  negsuc : ℕ → ℤ

-- `-n`.
abbrev pub minus : ℕ → ℤ
minus zero = ℤ.pos 0
minus (suc n) = ℤ.negsuc n

-- `z == n`
abbrev pub is : ℤ → ℕ → Bool
is (ℤ.pos m) n = m == n
is (ℤ.negsuc m) n = false

-- `z < n`
abbrev pub below : ℤ → ℕ → Bool
below (ℤ.pos m) n = ltb m n
below (ℤ.negsuc m) n = true

-- The number of a status that is not negative.
abbrev pub nat_of : ℤ → ℕ
nat_of (ℤ.pos m) = m
nat_of (ℤ.negsuc m) = 0
