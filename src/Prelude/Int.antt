-- ===== src/Prelude/Int.antt =====
-- A signed number, for a value that the code only passes on, such as a process exit code.
use Prim.Native.Nat.{ℕ}

-- `negsuc n` is -(n + 1).
pub data ℤ : Type 0 where
  pos : ℕ → ℤ
  negsuc : ℕ → ℤ
