-- ===== src/Prelude/Int.antt =====
-- Signed integers, which the program carries in an SOA record and does not compute with.
use Prim.Native.Nat.{ℕ}

-- `negsuc n` is -(n + 1).
pub data ℤ : Type 0 where
  pos : ℕ → ℤ
  negsuc : ℕ → ℤ
