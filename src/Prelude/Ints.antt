-- ===== src/Prelude/Ints.antt =====
-- Error codes are `i64`: the integers over the native numbers.
use Prim.Native.Nat.{ℕ}

pub data ℤ : Type 0 where
  pos : ℕ → ℤ
  negsuc : ℕ → ℤ
