-- ===== src/Prelude/Int.antt =====
-- The values of a C++ `int`, which the library hands on and never computes with.
use Prim.Native.Nat.{ℕ}

-- `negsuc n` is -(n + 1).
pub data ℤ : Type 0 where
  pos : ℕ → ℤ
  negsuc : ℕ → ℤ
