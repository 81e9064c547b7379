-- ===== src/Config/Values.antt =====
-- The parsers of configuration values in src/mp_logger_bootstrap.c. An output parameter that is
-- written on success only is the `some` of the result.
use mp_logger.Common.{
  ℕ, ◌+◌, ◌-◌, ◌*◌, ◌%◌, ◌^◌, Bool, true, false, ◌&&◌, ◌||◌, [], ◌∷◌, Option, none, some, Bytes,
  codes, ltb, ◌==◌, if◌then◌else◌, size_mod, str_eq, is_empty,
}
use mp_logger.Text.{is_space, is_digit, equal_ignore_case}
use mp_logger.Status.{
  Level, level_trace, level_debug, level_info, level_warning, level_error, level_fatal, Format,
  format_text, format_json,
}

unfoldable pub parse_bool : Bytes → Option Bool
parse_bool value =
    if equal_ignore_case value (codes "true")
      || str_eq value (codes "1")
      || equal_ignore_case value (codes "yes")
    then some true
    else if equal_ignore_case value (codes "false")
        || str_eq value (codes "0")
        || equal_ignore_case value (codes "no")
    then some false
    else none

unfoldable pub parse_level_name : Bytes → Option Level
parse_level_name value =
    if equal_ignore_case value (codes "trace")
    then some level_trace
    else if equal_ignore_case value (codes "debug")
    then some level_debug
    else if equal_ignore_case value (codes "info")
    then some level_info
    else if equal_ignore_case value (codes "warn") || equal_ignore_case value (codes "warning")
    then some level_warning
    else if equal_ignore_case value (codes "error")
    then some level_error
    else if equal_ignore_case value (codes "fatal")
    then some level_fatal
    else none

unfoldable pub parse_format_name : Bytes → Option Format
parse_format_name value =
    if equal_ignore_case value (codes "text")
    then some format_text
    else if equal_ignore_case value (codes "json")
    then some format_json
    else none

-- `strtoull(value, &end, 10)` of the C library, in its steps: whitespace, a sign, digits.
unfoldable pub skip_spaces : Bytes → Bytes
skip_spaces [] = []
skip_spaces (c ∷ s) = if is_space c then skip_spaces s else c ∷ s

-- Whether there is a minus sign, and what stands behind the sign.
unfoldable pub read_sign : Bytes → Bool × Bytes
read_sign [] = (false, [])
read_sign (c ∷ s) =
    if c == b'-' then (true, s) else if c == b'+' then (false, s) else (false, c ∷ s)

-- The digits read so far as a number with no bound, whether there is any, and the digits left.
pub record Digits : Type 0 where
  pub number : ℕ
  pub any : Bool
  pub rest : Bytes

unfoldable pub read_digits : ℕ → Bool → Bytes → Digits
read_digits number any [] = record { number = number; any = any; rest = [] }
read_digits number any (c ∷ s) =
    let more = read_digits (number * 10 + (c - b'0')) true s in
    if is_digit c then more else record { number = number; any = any; rest = c ∷ s }

-- With `errno` set for a number that does not fit, no digit, or something behind the digits the
-- value is refused. A minus sign negates in `unsigned long long`.
unfoldable pub parse_size_value : Bytes → Option ℕ
unfolding skip_spaces read_sign read_digits
parse_size_value value =
    let (negative, digits) = read_sign (skip_spaces value) in
    let read = read_digits 0 false digits in
    if ltb read.number size_mod && read.any && is_empty read.rest
    then some (if negative then (size_mod - read.number) % size_mod else read.number)
    else none

abbrev pub uint16_max : ℕ
uint16_max = 2 ^ 16 - 1

abbrev port_of_size : Option ℕ → Option ℕ
port_of_size none = none
port_of_size (some parsed) = if ltb uint16_max parsed then none else some parsed

unfoldable pub parse_port_value : Bytes → Option ℕ
parse_port_value value = port_of_size (parse_size_value value)
