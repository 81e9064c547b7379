-- ===== src/Render/Reference.antt =====
-- The texts that the renderer should produce, with no buffer and no capacity.
use mp_logger.Common.{
  ℕ, ◌-◌, Bool, List, [], ◌∷◌, ◌++◌, Bytes, codes, ltb, ◌==◌, if◌then◌else◌, take, is_empty,
}
use mp_logger.Text.{is_cntrl}
use mp_logger.Status.{level_name, Format, format_text, format_json}
use mp_logger.Config.{Config}
use mp_logger.Logger.{
  FieldValue, field_string, field_bool, field_int64, field_uint64, field_float64, field_other,
  Field, Record,
}
use mp_logger.Fields.{or_empty}
use mp_logger.Render.Number.{
  Printer, print_unsigned, print_signed, unicode_escape, format_timestamp,
}
use mp_logger.Render.{number_capacity}

-- One byte in a JSON string, and in a quoted text of the text format.
abbrev pub json_byte : ℕ → Bytes
json_byte c =
    if c == b'\\'
    then codes "\\\\"
    else if c == b'"'
    then codes "\\\""
    else if c == b'\n'
    then codes "\\n"
    else if c == b'\r'
    then codes "\\r"
    else if c == b'\t'
    then codes "\\t"
    else if ltb c 0x20
    then unicode_escape c
    else c ∷ []

abbrev pub text_byte : ℕ → Bytes
text_byte c =
    if c == b'\\'
    then codes "\\\\"
    else if c == b'"'
    then codes "\\\""
    else if c == b'\n'
    then codes "\\n"
    else if c == b'\r'
    then codes "\\r"
    else if c == b'\t'
    then codes "\\t"
    else if is_cntrl c
    then b'?' ∷ []
    else c ∷ []

unfoldable pub json_escape : Bytes → Bytes
json_escape [] = []
json_escape (c ∷ s) = json_byte c ++ json_escape s

unfoldable pub text_escape : Bytes → Bytes
text_escape [] = []
text_escape (c ∷ s) = text_byte c ++ text_escape s

unfoldable pub json_key : Bytes → Bytes
json_key key = (b'"' ∷ []) ++ key ++ (b'"' ∷ [])

unfoldable pub json_quoted : Bytes → Bytes
json_quoted s = (b'"' ∷ []) ++ json_escape s ++ (b'"' ∷ [])

abbrev pub bool_name : Bool → Bytes
bool_name b = if b then codes "true" else codes "false"

abbrev pub number_text : Bytes → Bytes
number_text = take (number_capacity - 1)

module _ (printer : Printer) where
  unfoldable pub json_value : FieldValue → Bytes
  json_value (field_string s) = json_quoted (or_empty s)
  json_value (field_bool b) = bool_name b
  json_value (field_int64 n) = number_text (print_signed n)
  json_value (field_uint64 n) = number_text (print_unsigned n)
  json_value (field_float64 bits) = number_text (printer.print_double bits)
  json_value (field_other tag) = []

  unfoldable pub text_value : FieldValue → Bytes
  text_value (field_string s) = (b'"' ∷ []) ++ text_escape (or_empty s) ++ (b'"' ∷ [])
  text_value (field_bool b) = bool_name b
  text_value (field_int64 n) = number_text (print_signed n)
  text_value (field_uint64 n) = number_text (print_unsigned n)
  text_value (field_float64 bits) = number_text (printer.print_double bits)
  text_value (field_other tag) = []

module _ (printer : Printer) (c : Config) where
  abbrev pub comma : Bytes
  comma = if c.pretty_output then codes ", " else codes ","

  abbrev pub colon : Bytes
  colon = if c.pretty_output then codes ": " else codes ":"

  unfoldable pub json_member : Bytes → Bytes → Bytes
  json_member key value = json_key key ++ colon ++ json_quoted value

  unfoldable pub json_sequence : ℕ → Bytes
  json_sequence n =
      json_key (codes "sequence_id") ++ colon ++ codes "\"" ++ print_unsigned n ++ codes "\""

  unfoldable pub json_context : Bytes → Bytes
  json_context context =
      if is_empty context then [] else comma ++ json_member (codes "context") context

  unfoldable pub json_field : Field → Bytes
  json_field f = comma ++ json_quoted (or_empty f.key) ++ colon ++ json_value printer f.value

  unfoldable pub json_fields : List Field → Bytes
  json_fields [] = []
  json_fields (f ∷ fields) = json_field f ++ json_fields fields

  -- The JSON object of a record.
  unfoldable pub json_text : Record → Bytes
  json_text r =
      (b'{' ∷ [])
      ++ json_member (codes "ts") (format_timestamp printer r.unix_epoch_millis)
      ++ comma
      ++ json_member (codes "level") (level_name r.level)
      ++ comma
      ++ json_member (codes "service") c.service_name
      ++ comma
      ++ json_member (codes "environment") c.environment_name
      ++ comma
      ++ json_sequence r.sequence_id
      ++ comma
      ++ json_member (codes "message") r.message
      ++ json_context r.context_text
      ++ json_fields r.fields
      ++ (b'}' ∷ [])

  unfoldable pub text_member : Bytes → Bytes → Bytes
  text_member key value = key ++ codes "=\"" ++ text_escape value

  unfoldable pub text_context : Bytes → Bytes
  text_context context =
      if is_empty context
      then []
      else codes " " ++ text_member (codes "context") context ++ (b'"' ∷ [])

  unfoldable pub text_field : Field → Bytes
  text_field f = (b' ' ∷ []) ++ or_empty f.key ++ (b'=' ∷ []) ++ text_value printer f.value

  unfoldable pub text_fields : List Field → Bytes
  text_fields [] = []
  text_fields (f ∷ fields) = text_field f ++ text_fields fields

  -- The line of the text format.
  unfoldable pub text_line : Record → Bytes
  text_line r =
      format_timestamp printer r.unix_epoch_millis
      ++ codes " "
      ++ codes "level"
      ++ codes "="
      ++ level_name r.level
      ++ codes " "
      ++ text_member (codes "service") c.service_name
      ++ codes "\" "
      ++ text_member (codes "environment") c.environment_name
      ++ codes "\" "
      ++ codes "sequence_id"
      ++ codes "=\""
      ++ print_unsigned r.sequence_id
      ++ codes "\" "
      ++ text_member (codes "message") r.message
      ++ (b'"' ∷ [])
      ++ text_context r.context_text
      ++ text_fields r.fields

  unfoldable pub entry_text : Format → Record → Bytes
  entry_text format_json r = json_text r
  entry_text format_text r = text_line r
