-- ===== src/Tests/Fields.antt =====
-- Fields that are admitted and fields that are not.
use mp_logger.Common.{◌≡◌, ◌↔◌, refl, map, [], ◌∷◌, some, none, codes, arith, false}
use mp_logger.Common.Lists.{str_eq}
use mp_logger.Text.{is_alnum, is_digit}
use mp_logger.Status.{status_ok, invalid_argument}
use mp_logger.Config.{config_init_defaults}
use mp_logger.Logger.{Field, field_string}
use mp_logger.Fields.{
  fields_at, is_finite, any_equal, is_reserved_field_key, is_key_byte, all_key_bytes,
  is_valid_field_key, has_key, check_value, check_field, check_fields, validate_fields, copy_field,
}
use mp_logger.Fields.Validate.{
  FieldsAreAdmitted, ArgsAreAdmitted, check_fields_iff, validate_fields_iff,
}
use mp_logger.Fields.Copy.{shown, map-copy_field}
use mp_logger.Tests.Samples.{small_config, user, tries}

validate_fields_iff_example :
    (validate_fields small_config (fields_at (user ∷ tries ∷ [])) ≡ status_ok)
    ↔ ArgsAreAdmitted small_config (fields_at (user ∷ tries ∷ []))
validate_fields_iff_example = validate_fields_iff small_config (fields_at (user ∷ tries ∷ []))

two_of_a_key : validate_fields small_config (fields_at (user ∷ user ∷ [])) ≡ invalid_argument
unfolding config_init_defaults validate_fields check_fields check_field check_value
    is_valid_field_key is_reserved_field_key any_equal all_key_bytes str_eq is_key_byte is_alnum
    is_digit has_key
two_of_a_key = refl

reserved_key : is_valid_field_key (some (codes "message")) ≡ false
unfolding is_valid_field_key is_reserved_field_key any_equal str_eq
reserved_key = refl

infinity : is_finite 0x7ff0000000000000 ≡ false
unfolding is_finite
infinity = refl

abbrev no_text : Field
no_text = record { key = some (codes "note"); value = field_string none }

no_text-IsAdmitted : FieldsAreAdmitted small_config (user ∷ no_text ∷ [])
unfolding config_init_defaults check_fields check_field check_value is_valid_field_key
    is_reserved_field_key any_equal all_key_bytes str_eq is_key_byte is_alnum is_digit has_key
no_text-IsAdmitted = (check_fields_iff small_config (user ∷ no_text ∷ [])).0 refl

map-copy_field_example :
    map (copy_field small_config) (map (copy_field small_config) (user ∷ no_text ∷ []))
    ≡ map shown (user ∷ no_text ∷ [])
unfolding config_init_defaults
map-copy_field_example =
    map-copy_field small_config (user ∷ no_text ∷ []) (omega arith) no_text-IsAdmitted
