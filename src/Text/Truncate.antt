-- ===== src/Text/Truncate.antt =====
-- `mp_logger_copy_truncated` and `mp_logger_sanitize_file_component`.
use mp_logger.Common.{
  ℕ, ◌-◌, ◌<◌, min, ◌≡◌, refl, true, [], ◌∷◌, some, arith, Bytes, if◌then◌else◌, length, take, All,
  take-all,
}
use mp_logger.Text.{is_alnum, is_digit, is_safe_byte, copy_truncated, sanitize_file_component}

-- If the capacity is not 0, what a copy into an array of `capacity` bytes holds is the longest prefix of the source that fits
-- with its NUL, and the reported length is the length of that prefix.
pub copy_truncated_lem :
    (capacity : ℕ) (src : Bytes)
    → 0 < capacity
    → (copy_truncated capacity (some src)
        ≡ (take (capacity - 1) src, min (capacity - 1) (length src)))
unfolding copy_truncated
copy_truncated_lem capacity src h =
    ground (arith, take-all (length src) src, take-all (capacity - 1) src)

abbrev pub IsSafe : ℕ → Type 0
IsSafe c = is_safe_byte c ≡ true

replaced-IsSafe : (c : ℕ) → IsSafe (if is_safe_byte c then c else b'_')
unfolding is_alnum is_digit
replaced-IsSafe c = ground arith

pub sanitize_file_component-All : (s : Bytes) → All IsSafe (sanitize_file_component s)
unfolding sanitize_file_component
sanitize_file_component-All [] = tt
sanitize_file_component-All (c ∷ s) = (replaced-IsSafe c, sanitize_file_component-All s)

pub sanitize_file_component_of_All : (s : Bytes) → All IsSafe s → sanitize_file_component s ≡ s
unfolding sanitize_file_component
sanitize_file_component_of_All [] h = refl
sanitize_file_component_of_All (c ∷ s) h = ground (arith, sanitize_file_component_of_All s h.1)

pub length-sanitize_file_component : (s : Bytes) → length (sanitize_file_component s) ≡ length s
unfolding sanitize_file_component
length-sanitize_file_component [] = refl
length-sanitize_file_component (c ∷ s) = omega (arith, length-sanitize_file_component s)

-- Sanitizing twice is sanitizing once.
sanitize_file_component_idem :
    (s : Bytes) → sanitize_file_component (sanitize_file_component s) ≡ sanitize_file_component s
sanitize_file_component_idem s =
    sanitize_file_component_of_All (sanitize_file_component s) (sanitize_file_component-All s)
