-- ===== src/Base/Integers.antt =====
-- Machine integers that may be negative, as mathematical ones.
use Prim.Native.Nat.{ℕ}

-- `negsuc n` is the integer -(n + 1).
pub data ℤ : Type 0 where
  pos : ℕ → ℤ
  negsuc : ℕ → ℤ
