-- ===== src/Prelude/Int.antt =====
-- A Go `int` or `int64` where the code tests its sign: `negsuc n` is -(n + 1).
use Prim.Native.Nat.{ℕ}

pub data ℤ : Type 0 where
  pos : ℕ → ℤ
  negsuc : ℕ → ℤ
