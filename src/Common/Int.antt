-- ===== src/Common/Int.antt =====
-- Signed integers over the native numbers: an `int64_t` value.
use mp_logger.Common.{ℕ}

-- `negsuc n` is -(n + 1).
pub data ℤ : Type 0 where
  pos : ℕ → ℤ
  negsuc : ℕ → ℤ
