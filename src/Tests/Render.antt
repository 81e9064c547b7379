-- ===== src/Tests/Render.antt =====
-- A record in a small buffer.
use mp_logger.Common.{◌++◌, ◌≡◌, refl, [], ◌∷◌, some, codes, arith, length, replicate, take}
use mp_logger.Common.Int.{pos}
use mp_logger.Text.{c_string, is_space, trim_start, trim_end, copy_trimmed}
use mp_logger.Status.{level_name}
use mp_logger.Config.{config_init_defaults}
use mp_logger.Logger.{Record}
use mp_logger.Render.{Out, append_json_escaped}
use mp_logger.Render.Number.{
  Tm, Printer, digits_of, print_unsigned, hex_digit, unicode_escape, pad, print_year, split_millis,
  timestamp_text, format_timestamp,
}
use mp_logger.Render.Entry.{render_record}
use mp_logger.Render.Reference.{
  json_escape, json_key, json_quoted, json_value, json_member, json_sequence, json_context,
  json_field, json_fields, json_text, entry_text,
}
use mp_logger.Render.Output.{Holds}
use mp_logger.Render.Escape.{plain, read_string, append_json_escaped_lem}
use mp_logger.Render.Result.{render_record_lem}
use mp_logger.Tests.Samples.{small_config, user, tries}

abbrev epoch : Tm
epoch = record { year = pos 1970; month = 1; day = 1; hour = 0; minute = 0; second = 0 }

-- Every time is the epoch, and every double prints as zero.
abbrev pub printer : Printer
printer = record { print_double = λ bits. codes "0"; gmtime = λ seconds. some epoch }

abbrev pub greeting_record : Record
greeting_record = record {
  sequence_id = 12;
  unix_epoch_millis = pos 34;
  level = 2;
  message = codes "a\"b";
  context_text = [];
  fields = user ∷ tries ∷ [];
}

pub entry_size : length (entry_text printer small_config small_config.format greeting_record) ≡ 158
unfolding config_init_defaults entry_text json_text json_fields json_field json_context
    json_sequence json_member json_value json_quoted json_key json_escape level_name print_unsigned
    digits_of format_timestamp timestamp_text split_millis print_year pad unicode_escape hex_digit
    copy_trimmed trim_start trim_end is_space
entry_size = refl

render_record_lem_example :
    (c_string (render_record printer 16 small_config greeting_record (replicate 16 1)).0
      ≡ c_string (take 15 (entry_text printer small_config small_config.format greeting_record)))
    × ((render_record printer 16 small_config greeting_record (replicate 16 1)).1
        ≡ length (
            c_string
              (take 15 (entry_text printer small_config small_config.format greeting_record))))
render_record_lem_example =
    render_record_lem printer 15 small_config greeting_record (replicate 16 1) refl
      (omega (arith, entry_size))

abbrev blank : Out
blank = record { buffer = replicate 8 1; used = 0 }

blank-Holds : Holds 8 blank []
blank-Holds = record {
  size = refl;
  logical = refl;
  stored = λ i inside below. absurd (omega arith);
}

escape_size : length (json_escape (codes "a\"\nb")) ≡ 6
unfolding json_escape
escape_size = refl

append_json_escaped_lem_example :
    Holds 8 (append_json_escaped 8 (codes "a\"\nb") blank) (json_escape (codes "a\"\nb"))
    × (read_string plain (json_escape (codes "a\"\nb") ++ (b'"' ∷ codes ","))
        ≡ some (codes "a\"\nb", codes ","))
append_json_escaped_lem_example =
    append_json_escaped_lem 8 (codes "a\"\nb") (codes ",") blank [] blank-Holds
      (omega (arith, escape_size))
