-- ===== src/Text/Case.antt =====
-- `mp_logger_equal_ignore_case`.
use mp_logger.Common.{◌≡◌, ◌↔◌, true, ◌∷◌, map, arith, Bytes}
use mp_logger.Text.{to_lower, equal_ignore_case}

-- Two texts are equal ignoring case exactly if they are equal in lower case.
pub equal_ignore_case_iff :
    (a b : Bytes) → (equal_ignore_case a b ≡ true) ↔ (map to_lower a ≡ map to_lower b)
unfolding equal_ignore_case
equal_ignore_case_iff (x ∷ a) (y ∷ b) = ground (arith, equal_ignore_case_iff a b)
equal_ignore_case_iff _ _ = ground arith
