-- ===== src/Render.antt =====
-- The renderer of src/mp_logger_streams.c. A call writes to one buffer of fixed capacity and carries
-- the logical length on, so its state is the buffer's bytes and that length.
pub mod Number
pub mod Entry
pub mod Output
pub mod Reference
pub mod Refine
pub mod Result
pub mod Escape
use mp_logger.Common.{
  ℕ, zero, suc, ◌+◌, ◌-◌, ◌/◌, ◌%◌, Bool, true, false, ◌&&◌, List, [], ◌∷◌, ◌++◌, Option, none,
  some, Bytes, codes, ltb, leb, ◌==◌, if◌then◌else◌, add_size, length, set, take, is_empty,
}
use mp_logger.Common.Int.{ℤ, pos, negsuc}
use mp_logger.Text.{c_string, is_cntrl}
use mp_logger.Status.{level_name, Format, format_text, format_json}
use mp_logger.Config.{Config}
use mp_logger.Logger.{
  FieldValue, field_string, field_bool, field_int64, field_uint64, field_float64, field_other,
  Field, Record,
}
use mp_logger.Fields.{or_empty}
use mp_logger.Render.Number.{Printer, print_unsigned, print_signed, unicode_escape}

pub record Out : Type 0 where
  pub buffer : Bytes
  pub used : ℕ

abbrev pub number_capacity : ℕ
number_capacity = 64

infixl 20 ◌▸◌
unfoldable pub ◌▸◌ : (Out → Out) → (Out → Out) → Out → Out
(f ▸ g) o = g (f o)

module _ (capacity : ℕ) where
  unfoldable pub append_char : ℕ → Out → Out
  append_char value o = record {
    buffer =
        if ltb 0 capacity && ltb (add_size o.used 1) capacity
        then set o.buffer o.used value
        else o.buffer;
    used = add_size o.used 1;
  }

  unfoldable pub append_string : Bytes → Out → Out
  append_string [] o = o
  append_string (c ∷ value) o = append_string value (append_char c o)

  -- The switch on one byte.
  unfoldable pub append_json_byte : ℕ → Out → Out
  append_json_byte c =
      if c == b'\\'
      then append_string (codes "\\\\")
      else if c == b'"'
      then append_string (codes "\\\"")
      else if c == b'\n'
      then append_string (codes "\\n")
      else if c == b'\r'
      then append_string (codes "\\r")
      else if c == b'\t'
      then append_string (codes "\\t")
      else if ltb c 0x20
      then append_string (unicode_escape c)
      else append_char c

  unfoldable pub append_json_escaped : Bytes → Out → Out
  append_json_escaped [] o = o
  append_json_escaped (c ∷ value) o = append_json_escaped value (append_json_byte c o)

  unfoldable pub append_text_byte : ℕ → Out → Out
  append_text_byte c =
      if c == b'\\'
      then append_string (codes "\\\\")
      else if c == b'"'
      then append_string (codes "\\\"")
      else if c == b'\n'
      then append_string (codes "\\n")
      else if c == b'\r'
      then append_string (codes "\\r")
      else if c == b'\t'
      then append_string (codes "\\t")
      else if is_cntrl c
      then append_char b'?'
      else append_char c

  unfoldable pub append_text_escaped : Bytes → Out → Out
  append_text_escaped [] o = o
  append_text_escaped (c ∷ value) o = append_text_escaped value (append_text_byte c o)

  unfoldable pub append_json_key : Bytes → Out → Out
  append_json_key key = append_char b'"' ▸ append_string key ▸ append_char b'"'

  -- An escaped text between quotes, as the renderer writes it for each member.
  unfoldable pub append_json_quoted : Bytes → Out → Out
  append_json_quoted s = append_char b'"' ▸ append_json_escaped s ▸ append_char b'"'

  abbrev bool_text : Bool → Bytes
  bool_text b = if b then codes "true" else codes "false"

  module _ (printer : Printer) where
    -- A number goes through an array of 64 bytes. A tag outside the enumeration appends nothing.
    unfoldable pub append_json_field_value : FieldValue → Out → Out
    append_json_field_value (field_string s) = append_json_quoted (or_empty s)
    append_json_field_value (field_bool b) = append_string (bool_text b)
    append_json_field_value (field_int64 n) =
        append_string (take (number_capacity - 1) (print_signed n))
    append_json_field_value (field_uint64 n) =
        append_string (take (number_capacity - 1) (print_unsigned n))
    append_json_field_value (field_float64 bits) =
        append_string (take (number_capacity - 1) (printer.print_double bits))
    append_json_field_value (field_other tag) = append_string []

    unfoldable pub append_text_field_value : FieldValue → Out → Out
    append_text_field_value (field_string s) =
        append_char b'"' ▸ append_text_escaped (or_empty s) ▸ append_char b'"'
    append_text_field_value (field_bool b) = append_string (bool_text b)
    append_text_field_value (field_int64 n) =
        append_string (take (number_capacity - 1) (print_signed n))
    append_text_field_value (field_uint64 n) =
        append_string (take (number_capacity - 1) (print_unsigned n))
    append_text_field_value (field_float64 bits) =
        append_string (take (number_capacity - 1) (printer.print_double bits))
    append_text_field_value (field_other tag) = append_string []
