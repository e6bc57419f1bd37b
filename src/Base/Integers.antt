-- ===== src/Base/Integers.antt =====
-- The integers, for a position that a list takes from its end.
use Prim.Native.Nat.{ℕ}

-- `negsuc n` is -(n + 1).
pub data ℤ : Type 0 where
  pos : ℕ → ℤ
  negsuc : ℕ → ℤ
