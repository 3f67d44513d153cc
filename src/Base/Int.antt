-- ===== src/Base/Int.antt =====
-- Signed integers over the native numbers: `negsuc n` is -(n + 1).
use Prim.Native.Nat.{ℕ}
use mathlib.Core.Bool.{Bool, false, ◌&&◌}
use whitenoise_linux.Base.Tests.{ltb, leb}

pub data ℤ : Type 0 where
  pos : ℕ → ℤ
  negsuc : ℕ → ℤ

-- 0 < a and a ≤ max, the test that the C code writes for an `int`.
abbrev pub positive_to : ℤ → ℕ → Bool
positive_to (pos n) max = ltb 0 n && leb n max
positive_to (negsuc n) max = false

-- The value of an `int` that is not negative.
abbrev pub value : ℤ → ℕ
value (pos n) = n
value (negsuc n) = 0
