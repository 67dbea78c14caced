-- ===== src/Common/Int.antt =====
-- Signed integers, as the error codes of the platform are stored.
use Prim.Native.Nat.{ℕ}
use mathlib.Core.Bool.{Bool, true, false}
use s3_hidbot.Common.Tests.{ltb}

-- `negsuc n` is -(n + 1).
pub data ℤ : Type 0 where
  pos : ℕ → ℤ
  negsuc : ℕ → ℤ

abbrev pub less : ℤ → ℤ → Bool
less (pos a) (pos b) = ltb a b
less (pos _) (negsuc _) = false
less (negsuc _) (pos _) = true
less (negsuc a) (negsuc b) = ltb b a
