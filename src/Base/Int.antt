-- ===== src/Base/Int.antt =====
-- Go's `int`, where a value may be negative. Its bounds are not reached by the code that is
-- modelled with it.
use Prim.Native.Nat.{ℕ}

-- `negsuc n` is -(n + 1).
pub data ℤ : Type 0 where
  pos : ℕ → ℤ
  negsuc : ℕ → ℤ
