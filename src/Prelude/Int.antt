-- ===== src/Prelude/Int.antt =====
-- The integers over the native numbers: `pos n` is n and `negsuc n` is - (n + 1).
use Prim.Native.Nat.{ℕ}

pub data ℤ : Type 0 where
  pos : ℕ → ℤ
  negsuc : ℕ → ℤ
