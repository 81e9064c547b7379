-- ===== src/Render/Number.antt =====
-- Numbers and times as text: the formats of `snprintf` that the renderer uses, and
-- `mp_logger_format_timestamp` of src/mp_logger_streams.c.
use mp_logger.Common.{
  ℕ, zero, suc, ◌+◌, ◌-◌, ◌/◌, ◌%◌, [], ◌∷◌, ◌++◌, Option, none, some, Bytes, codes, ltb, ◌==◌,
  if◌then◌else◌, length, replicate, take,
}
use mp_logger.Common.Int.{ℤ, pos, negsuc}

-- `%llu` and `%lld`. A number has fewer digits than its value plus one, which is the fuel.
unfoldable pub digits_of : ℕ → ℕ → Bytes → Bytes
digits_of zero n acc = acc
digits_of (suc fuel) n acc =
    let digit = b'0' + n % 10 in
    let more = digits_of fuel (n / 10) (digit ∷ acc) in if ltb n 10 then digit ∷ acc else more

unfoldable pub print_unsigned : ℕ → Bytes
print_unsigned n = digits_of (suc n) n []

unfoldable pub print_signed : ℤ → Bytes
print_signed (pos n) = print_unsigned n
print_signed (negsuc n) = b'-' ∷ print_unsigned (suc n)

-- A digit of `%x`.
unfoldable pub hex_digit : ℕ → ℕ
hex_digit d = if ltb d 10 then b'0' + d else b'a' + (d - 10)

-- `\u%04x` of a byte below 0x20.
unfoldable pub unicode_escape : ℕ → Bytes
unicode_escape c = b'\\' ∷ b'u' ∷ b'0' ∷ b'0' ∷ hex_digit (c / 16) ∷ hex_digit (c % 16) ∷ []

-- Minus a natural number.
abbrev negate : ℕ → ℤ
negate zero = pos 0
negate (suc n) = negsuc n

-- The members of `struct tm` that are printed, with `tm_year + 1900` and `tm_mon + 1`.
pub record Tm : Type 0 where
  pub year : ℤ
  pub month : ℕ
  pub day : ℕ
  pub hour : ℕ
  pub minute : ℕ
  pub second : ℕ

-- What the renderer uses of the C library beyond decimal numbers: `%.17g` of the double with a bit
-- pattern, and `gmtime_r` of a number of seconds.
pub record Printer : Type 0 where
  pub print_double : ℕ → Bytes
  pub gmtime : ℤ → Option Tm

-- `%0wd`: zeros up to the width, behind the sign.
unfoldable pub pad : ℕ → Bytes → Bytes
pad width digits = replicate (width - length digits) b'0' ++ digits

unfoldable pub print_year : ℤ → Bytes
print_year (pos n) = pad 4 (print_unsigned n)
print_year (negsuc n) = b'-' ∷ pad 3 (print_unsigned (suc n))

abbrev two_digits : ℕ → Bytes
two_digits n = pad 2 (print_unsigned n)

-- The seconds and the milliseconds of a time, rounded down: C rounds to zero, and the code
-- corrects a negative remainder. `negsuc n` is -(n + 1).
unfoldable pub split_millis : ℤ → ℤ × ℕ
split_millis (pos n) = (pos (n / 1000), n % 1000)
split_millis (negsuc n) =
    let seconds = suc n / 1000 in
    let millis = suc n % 1000 in
    if millis == 0 then (negate seconds, 0) else (negsuc seconds, 1000 - millis)

abbrev pub timestamp_capacity : ℕ
timestamp_capacity = 32

unfoldable pub timestamp_text : Tm → ℕ → Bytes
timestamp_text t millis =
    print_year t.year
    ++ codes "-"
    ++ two_digits t.month
    ++ codes "-"
    ++ two_digits t.day
    ++ codes "T"
    ++ two_digits t.hour
    ++ codes ":"
    ++ two_digits t.minute
    ++ codes ":"
    ++ two_digits t.second
    ++ codes "."
    ++ pad 3 (print_unsigned millis)
    ++ codes "Z"

-- `snprintf` cuts the text to the array.
unfoldable pub format_timestamp : Printer → ℤ → Bytes
format_timestamp printer time =
    let (seconds, millis) = split_millis time in
    take (timestamp_capacity - 1) (elim (printer.gmtime seconds) [
      | none ↦ codes "1970-01-01T00:00:00.000Z"
      | some t ↦ timestamp_text t millis
    ])
