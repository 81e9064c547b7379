-- ===== src/Render/Entry.antt =====
-- `mp_logger_render_record` of src/mp_logger_streams.c.
use mp_logger.Common.{
  ℕ, ◌-◌, List, [], ◌∷◌, Bytes, codes, leb, ◌==◌, if◌then◌else◌, length, set, is_empty,
}
use mp_logger.Text.{c_string}
use mp_logger.Status.{level_name, Format, format_text, format_json}
use mp_logger.Config.{Config}
use mp_logger.Logger.{Field, Record}
use mp_logger.Fields.{or_empty}
use mp_logger.Render.Number.{Printer, print_unsigned, format_timestamp}
use mp_logger.Render.{
  Out, ◌▸◌, append_char, append_string, append_json_key, append_json_quoted, append_text_escaped,
  append_json_field_value, append_text_field_value,
}

unfoldable pub finalize_buffer : ℕ → Out → Bytes
finalize_buffer capacity o =
    if capacity == 0
    then o.buffer
    else set o.buffer (if leb capacity o.used then capacity - 1 else o.used) 0

module _ (printer : Printer) (capacity : ℕ) (c : Config) where
  abbrev pub separator : Bytes
  separator = if c.pretty_output then codes ", " else codes ","

  abbrev pub colon : Bytes
  colon = if c.pretty_output then codes ": " else codes ":"

  -- A member with a quoted text: its key, the colon and the text.
  unfoldable pub append_json_member : Bytes → Bytes → Out → Out
  append_json_member key value =
      append_json_key capacity key
      ▸ append_string capacity colon
      ▸ append_json_quoted capacity value

  -- The sequence number, a quoted text that is not escaped.
  unfoldable pub append_json_sequence : ℕ → Out → Out
  append_json_sequence n =
      append_json_key capacity (codes "sequence_id")
      ▸ append_string capacity colon
      ▸ append_string capacity (codes "\"")
      ▸ append_string capacity (print_unsigned n)
      ▸ append_string capacity (codes "\"")

  -- Nothing is written for a record without a context.
  unfoldable pub append_json_context : Bytes → Out → Out
  append_json_context context =
      if is_empty context
      then append_string capacity []
      else append_string capacity separator ▸ append_json_member (codes "context") context

  unfoldable pub append_json_field : Field → Out → Out
  append_json_field f =
      append_string capacity separator
      ▸ append_json_quoted capacity (or_empty f.key)
      ▸ append_string capacity colon
      ▸ append_json_field_value capacity printer f.value

  unfoldable pub append_json_fields : List Field → Out → Out
  append_json_fields [] = append_string capacity []
  append_json_fields (f ∷ fields) = append_json_field f ▸ append_json_fields fields

  unfoldable pub render_json : Record → Out → Out
  render_json r =
      append_char capacity b'{'
      ▸ append_json_member (codes "ts") (format_timestamp printer r.unix_epoch_millis)
      ▸ append_string capacity separator
      ▸ append_json_member (codes "level") (level_name r.level)
      ▸ append_string capacity separator
      ▸ append_json_member (codes "service") c.service_name
      ▸ append_string capacity separator
      ▸ append_json_member (codes "environment") c.environment_name
      ▸ append_string capacity separator
      ▸ append_json_sequence r.sequence_id
      ▸ append_string capacity separator
      ▸ append_json_member (codes "message") r.message
      ▸ append_json_context r.context_text
      ▸ append_json_fields r.fields
      ▸ append_char capacity b'}'

  -- A member of the text format after its opening quote's `key="`.
  unfoldable pub append_text_member : Bytes → Bytes → Out → Out
  append_text_member key value =
      append_string capacity key
      ▸ append_string capacity (codes "=\"")
      ▸ append_text_escaped capacity value

  unfoldable pub append_text_context : Bytes → Out → Out
  append_text_context context =
      if is_empty context
      then append_string capacity []
      else append_string capacity (codes " ")
        ▸ append_text_member (codes "context") context
        ▸ append_char capacity b'"'

  unfoldable pub append_text_field : Field → Out → Out
  append_text_field f =
      append_char capacity b' '
      ▸ append_string capacity (or_empty f.key)
      ▸ append_char capacity b'='
      ▸ append_text_field_value capacity printer f.value

  unfoldable pub append_text_fields : List Field → Out → Out
  append_text_fields [] = append_string capacity []
  append_text_fields (f ∷ fields) = append_text_field f ▸ append_text_fields fields

  unfoldable pub render_text : Record → Out → Out
  render_text r =
      append_string capacity (format_timestamp printer r.unix_epoch_millis)
      ▸ append_string capacity (codes " ")
      ▸ append_string capacity (codes "level")
      ▸ append_string capacity (codes "=")
      ▸ append_string capacity (level_name r.level)
      ▸ append_string capacity (codes " ")
      ▸ append_text_member (codes "service") c.service_name
      ▸ append_string capacity (codes "\" ")
      ▸ append_text_member (codes "environment") c.environment_name
      ▸ append_string capacity (codes "\" ")
      ▸ append_string capacity (codes "sequence_id")
      ▸ append_string capacity (codes "=\"")
      ▸ append_string capacity (print_unsigned r.sequence_id)
      ▸ append_string capacity (codes "\" ")
      ▸ append_text_member (codes "message") r.message
      ▸ append_char capacity b'"'
      ▸ append_text_context r.context_text
      ▸ append_text_fields r.fields

  unfoldable pub render_by : Format → Record → Out → Out
  render_by format_json r = render_json r
  render_by format_text r = render_text r

  -- The bytes of the buffer afterwards, and the length of the C string that it holds.
  unfoldable pub render_record : Record → Bytes → Bytes × ℕ
  render_record r buffer =
      if capacity == 0
      then (buffer, 0)
      else let final =
          finalize_buffer capacity (render_by c.format r (record { buffer = buffer; used = 0 })) in
        (final, length (c_string final))
