-- ===== src/Render/Refine.antt =====
-- The renderer against the reference texts.
use mp_logger.Common.{
  ℕ, Bool, true, false, List, [], ◌∷◌, Bytes, ltb, ◌==◌, if◌then◌else◌, is_empty,
}
use mp_logger.Text.{is_cntrl}
use mp_logger.Status.{Format, format_text, format_json}
use mp_logger.Config.{Config}
use mp_logger.Logger.{
  FieldValue, field_string, field_bool, field_int64, field_uint64, field_float64, field_other,
  Field, Record,
}
use mp_logger.Fields.{or_empty}
use mp_logger.Render.Number.{Printer}
use mp_logger.Render.{
  Out, ◌▸◌, append_char, append_string, append_json_byte, append_json_escaped, append_text_byte,
  append_text_escaped, append_json_key, append_json_quoted, append_json_field_value,
  append_text_field_value,
}
use mp_logger.Render.Entry.{
  append_json_member, append_json_sequence, append_json_context, append_json_field,
  append_json_fields, render_json, append_text_member, append_text_context, append_text_field,
  append_text_fields, render_text, render_by,
}
use mp_logger.Render.Output.{Appends, append_char-Appends, append_string-Appends, ◌▹◌}
use mp_logger.Render.Reference.{
  json_byte, text_byte, json_escape, text_escape, json_key, json_quoted, json_value, text_value,
  json_member, json_sequence, json_context, json_field, json_fields, json_text, text_member,
  text_context, text_field, text_fields, text_line, entry_text,
}

module _ (capacity : ℕ) where
  char : (value : ℕ) → Appends capacity (append_char capacity value) (value ∷ [])
  char = append_char-Appends capacity

  str : (s : Bytes) → Appends capacity (append_string capacity s) s
  str = append_string-Appends capacity

  choose :
      {f g : Out → Out} {t u : Bytes} (b : Bool)
      → Appends capacity f t
      → Appends capacity g u
      → Appends capacity (if b then f else g) (if b then t else u)
  choose true p q = p
  choose false p q = q

  json_byte-Appends : (c : ℕ) → Appends capacity (append_json_byte capacity c) (json_byte c)
  unfolding append_json_byte
  json_byte-Appends c = choose (c == b'\\') (str _) (
      choose (c == b'"') (str _) (
        choose (c == b'\n') (str _) (
          choose (c == b'\r') (str _)
            (choose (c == b'\t') (str _) (choose (ltb c 0x20) (str _) (char c))))))

  text_byte-Appends : (c : ℕ) → Appends capacity (append_text_byte capacity c) (text_byte c)
  unfolding append_text_byte
  text_byte-Appends c = choose (c == b'\\') (str _) (
      choose (c == b'"') (str _) (
        choose (c == b'\n') (str _) (
          choose (c == b'\r') (str _)
            (choose (c == b'\t') (str _) (choose (is_cntrl c) (char _) (char c))))))

  pub json_escaped-Appends :
      (s : Bytes) → Appends capacity (append_json_escaped capacity s) (json_escape s)
  unfolding append_json_escaped json_escape append_string ◌▸◌
  json_escaped-Appends [] = str []
  json_escaped-Appends (c ∷ s) = json_byte-Appends c ▹ json_escaped-Appends s

  text_escaped-Appends :
      (s : Bytes) → Appends capacity (append_text_escaped capacity s) (text_escape s)
  unfolding append_text_escaped text_escape append_string ◌▸◌
  text_escaped-Appends [] = str []
  text_escaped-Appends (c ∷ s) = text_byte-Appends c ▹ text_escaped-Appends s

  json_key-Appends : (key : Bytes) → Appends capacity (append_json_key capacity key) (json_key key)
  unfolding append_json_key json_key
  json_key-Appends key = char _ ▹ str key ▹ char _

  json_quoted-Appends :
      (s : Bytes) → Appends capacity (append_json_quoted capacity s) (json_quoted s)
  unfolding append_json_quoted json_quoted
  json_quoted-Appends s = char _ ▹ json_escaped-Appends s ▹ char _

  module _ (printer : Printer) where
    json_value-Appends :
        (v : FieldValue)
        → Appends capacity (append_json_field_value capacity printer v) (json_value printer v)
    unfolding append_json_field_value json_value
    json_value-Appends (field_string s) = json_quoted-Appends (or_empty s)
    json_value-Appends (field_bool b) = str _
    json_value-Appends (field_int64 n) = str _
    json_value-Appends (field_uint64 n) = str _
    json_value-Appends (field_float64 bits) = str _
    json_value-Appends (field_other tag) = str _

    text_value-Appends :
        (v : FieldValue)
        → Appends capacity (append_text_field_value capacity printer v) (text_value printer v)
    unfolding append_text_field_value text_value
    text_value-Appends (field_string s) = char _ ▹ text_escaped-Appends (or_empty s) ▹ char _
    text_value-Appends (field_bool b) = str _
    text_value-Appends (field_int64 n) = str _
    text_value-Appends (field_uint64 n) = str _
    text_value-Appends (field_float64 bits) = str _
    text_value-Appends (field_other tag) = str _

    module _ (c : Config) where
      json_member-Appends :
          (key value : Bytes)
          → Appends capacity
              (append_json_member printer capacity c key value)
              (json_member printer c key value)
      unfolding append_json_member json_member
      json_member-Appends key value = json_key-Appends key ▹ str _ ▹ json_quoted-Appends value

      json_sequence-Appends :
          (n : ℕ)
          → Appends capacity (append_json_sequence printer capacity c n) (json_sequence printer c n)
      unfolding append_json_sequence json_sequence
      json_sequence-Appends n = json_key-Appends _ ▹ str _ ▹ str _ ▹ str _ ▹ str _

      json_context-Appends :
          (context : Bytes)
          → Appends capacity
              (append_json_context printer capacity c context)
              (json_context printer c context)
      unfolding append_json_context json_context
      json_context-Appends context =
          choose (is_empty context) (str []) (str _ ▹ json_member-Appends _ context)

      json_field-Appends :
          (f : Field)
          → Appends capacity (append_json_field printer capacity c f) (json_field printer c f)
      unfolding append_json_field json_field
      json_field-Appends f =
          str _ ▹ json_quoted-Appends (or_empty f.key) ▹ str _ ▹ json_value-Appends f.value

      json_fields-Appends :
          (fields : List Field)
          → Appends capacity
              (append_json_fields printer capacity c fields)
              (json_fields printer c fields)
      unfolding append_json_fields json_fields
      json_fields-Appends [] = str []
      json_fields-Appends (f ∷ fields) = json_field-Appends f ▹ json_fields-Appends fields

      text_member-Appends :
          (key value : Bytes)
          → Appends capacity
              (append_text_member printer capacity c key value)
              (text_member printer c key value)
      unfolding append_text_member text_member
      text_member-Appends key value = str key ▹ str _ ▹ text_escaped-Appends value

      text_context-Appends :
          (context : Bytes)
          → Appends capacity
              (append_text_context printer capacity c context)
              (text_context printer c context)
      unfolding append_text_context text_context
      text_context-Appends context =
          choose (is_empty context) (str []) (str _ ▹ text_member-Appends _ context ▹ char _)

      text_field-Appends :
          (f : Field)
          → Appends capacity (append_text_field printer capacity c f) (text_field printer c f)
      unfolding append_text_field text_field
      text_field-Appends f = char _ ▹ str (or_empty f.key) ▹ char _ ▹ text_value-Appends f.value

      text_fields-Appends :
          (fields : List Field)
          → Appends capacity
              (append_text_fields printer capacity c fields)
              (text_fields printer c fields)
      unfolding append_text_fields text_fields
      text_fields-Appends [] = str []
      text_fields-Appends (f ∷ fields) = text_field-Appends f ▹ text_fields-Appends fields

      json_text-Appends :
          (r : Record) → Appends capacity (render_json printer capacity c r) (json_text printer c r)
      unfolding render_json json_text
      json_text-Appends r =
          char _
          ▹ json_member-Appends _ _
          ▹ str _
          ▹ json_member-Appends _ _
          ▹ str _
          ▹ json_member-Appends _ _
          ▹ str _
          ▹ json_member-Appends _ _
          ▹ str _
          ▹ json_sequence-Appends _
          ▹ str _
          ▹ json_member-Appends _ _
          ▹ json_context-Appends _
          ▹ json_fields-Appends _
          ▹ char _

      text_line-Appends :
          (r : Record) → Appends capacity (render_text printer capacity c r) (text_line printer c r)
      unfolding render_text text_line
      text_line-Appends r =
          str _
          ▹ str _
          ▹ str _
          ▹ str _
          ▹ str _
          ▹ str _
          ▹ text_member-Appends _ _
          ▹ str _
          ▹ text_member-Appends _ _
          ▹ str _
          ▹ str _
          ▹ str _
          ▹ str _
          ▹ str _
          ▹ text_member-Appends _ _
          ▹ char _
          ▹ text_context-Appends _
          ▹ text_fields-Appends _

      pub entry_text-Appends :
          (format : Format) (r : Record)
          → Appends capacity (render_by printer capacity c format r) (entry_text printer c format r)
      unfolding render_by entry_text
      entry_text-Appends format_json r = json_text-Appends r
      entry_text-Appends format_text r = text_line-Appends r
