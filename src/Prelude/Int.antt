-- ===== src/Prelude/Int.antt =====
-- Signed integers over the native numbers, with their equality test.
use Prim.Native.Nat.{ℕ}
use mathlib.Core.Bool.{Bool, false}
use blueripple_passkey.Prelude.Tests.{◌==◌}

-- `negsuc n` is -(n + 1).
pub data ℤ : Type 0 where
  pos : ℕ → ℤ
  negsuc : ℕ → ℤ

abbrev pub eq_ℤ : ℤ → ℤ → Bool
eq_ℤ (pos a) (pos b) = a == b
eq_ℤ (negsuc a) (negsuc b) = a == b
eq_ℤ (pos a) (negsuc b) = false
eq_ℤ (negsuc a) (pos b) = false
