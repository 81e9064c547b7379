-- ===== src/Text.antt =====
-- The string routines of src/mp_logger_bootstrap.c and src/mp_logger_streams.c, on C strings.
-- A routine that writes a `char[]` returns the C string that the array then holds; the capacity is
-- the array's size.
pub mod Trim
pub mod Truncate
pub mod Case
pub mod Version
use mp_logger.Common.{
  ℕ, zero, suc, ◌+◌, ◌-◌, ◌%◌, ◌^◌, Bool, true, false, not, ◌&&◌, ◌||◌, List, [], ◌∷◌, Option, none,
  some, Bytes, ltb, leb, ◌==◌, if◌then◌else◌, length, get_or, take, drop, is_empty,
}

-- The C string that a piece of memory holds: it ends at a NUL.
unfoldable pub c_string : Bytes → Bytes
c_string [] = []
c_string (c ∷ s) = if c == 0 then [] else c ∷ c_string s

-- `isspace`, `isdigit`, `isalnum`, `iscntrl` and `tolower` in the C locale.
unfoldable pub is_space : ℕ → Bool
is_space c = c == b' ' || (leb b'\t' c && leb c b'\r')

unfoldable pub is_digit : ℕ → Bool
is_digit c = leb b'0' c && leb c b'9'

unfoldable pub is_alnum : ℕ → Bool
is_alnum c = is_digit c || (leb b'a' c && leb c b'z') || (leb b'A' c && leb c b'Z')

unfoldable pub is_cntrl : ℕ → Bool
is_cntrl c = ltb c 0x20 || c == 0x7f

unfoldable pub to_lower : ℕ → ℕ
to_lower c = if leb b'A' c && leb c b'Z' then c + 32 else c

-- The loop of `mp_logger_equal_ignore_case`, the index moved along both texts.
unfoldable pub equal_ignore_case : Bytes → Bytes → Bool
equal_ignore_case [] [] = true
equal_ignore_case (x ∷ left) (y ∷ right) = to_lower x == to_lower y && equal_ignore_case left right
equal_ignore_case _ _ = false

-- `while (src[start] != '\0' && isspace(src[start])) start++`
unfoldable pub trim_start : Bytes → ℕ
trim_start [] = 0
trim_start (c ∷ src) = if is_space c then suc (trim_start src) else 0

-- `while (end > start && isspace(src[end - 1])) end--`
unfoldable pub trim_end : Bytes → ℕ → ℕ → ℕ
trim_end src start zero = 0
trim_end src start (suc end) =
    if ltb start (suc end) && is_space (get_or src end 0) then trim_end src start end else suc end

-- The copied part, cut to `capacity - 1` bytes. Every caller passes an array's size as capacity,
-- which is positive, and a text.
unfoldable pub copy_trimmed : ℕ → Bytes → Bytes
copy_trimmed capacity src =
    let start = trim_start src in
    let length' = trim_end src start (length src) - start in
    take (if leb capacity length' then capacity - 1 else length') (drop start src)

-- What `dest` then holds, and `*out_length`. No copy leaves an empty string and the length 0; with
-- capacity 0 the array is left alone, and every array here has at least one byte.
unfoldable pub copy_truncated : ℕ → Option Bytes → Bytes × ℕ
copy_truncated capacity none = ([], 0)
copy_truncated capacity (some src) =
    if capacity == 0
    then ([], 0)
    else let length' = if leb capacity (length src) then capacity - 1 else length src in
      (take length' src, length')

-- `value[length - 1]`
abbrev last_byte : Bytes → ℕ
last_byte value = get_or value (length value - 1) 0

unfoldable pub unquote_scalar : Bytes → Bytes
unquote_scalar value =
    if leb 2 (length value)
      && ((get_or value 0 0 == b'"' && last_byte value == b'"')
          || (get_or value 0 0 == 0x27 && last_byte value == 0x27))
    then take (length value - 2) (drop 1 value)
    else value

abbrev pub is_safe_byte : ℕ → Bool
is_safe_byte c = is_alnum c || c == b'-' || c == b'_'

unfoldable pub sanitize_file_component : Bytes → Bytes
sanitize_file_component [] = []
sanitize_file_component (c ∷ value) =
    (if is_safe_byte c then c else b'_') ∷ sanitize_file_component value

-- `MAJOR.MINOR.HOTFIX`: the loop over the bytes left, with `component_count` and `saw_digit`.
unfoldable pub version_loop : Bytes → ℕ → Bool → Bool
version_loop [] count saw_digit = saw_digit && count == 2
version_loop (c ∷ value) count saw_digit =
    let digit = version_loop value count true in
    let dot = version_loop value ((count + 1) % 2 ^ 32) false in
    if is_digit c
    then digit
    else if c == b'.'
    then (if not saw_digit then false else dot)
    else false

unfoldable pub is_build_version_valid : Bytes → Bool
unfolding version_loop
is_build_version_valid value = if is_empty value then false else version_loop value 0 false
