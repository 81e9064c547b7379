-- ===== src/Fields.antt =====
-- Structured fields: the constructors, the validation and the copies of src/mp_logger.c.
pub mod Validate
pub mod Copy
use mp_logger.Common.{
  ℕ, ◌+◌, ◌/◌, ◌%◌, ◌^◌, Bool, true, false, not, ◌&&◌, ◌||◌, List, [], ◌∷◌, ◌++◌, map, Option, none,
  some, Bytes, codes, ltb, leb, ◌==◌, if◌then◌else◌, length, take, drop, str_eq, is_empty,
}
use mp_logger.Common.Int.{ℤ}
use mp_logger.Text.{is_alnum, copy_truncated}
use mp_logger.Status.{Status, status_ok, invalid_argument, limit_exceeded}
use mp_logger.Config.{Config}
use mp_logger.Logger.{
  FieldValue, field_string, field_bool, field_int64, field_uint64, field_float64, field_other,
  Field, Slot, Record,
}

unfoldable pub log_field_string : Option Bytes → Option Bytes → Field
log_field_string key value = record { key = key; value = field_string value }

unfoldable pub log_field_bool : Option Bytes → Bool → Field
log_field_bool key value = record { key = key; value = field_bool value }

unfoldable pub log_field_int64 : Option Bytes → ℤ → Field
log_field_int64 key value = record { key = key; value = field_int64 value }

unfoldable pub log_field_uint64 : Option Bytes → ℕ → Field
log_field_uint64 key value = record { key = key; value = field_uint64 value }

unfoldable pub log_field_float64 : Option Bytes → ℕ → Field
log_field_float64 key value = record { key = key; value = field_float64 value }

-- `isfinite` of a double with this bit pattern: the exponent is not all ones.
unfoldable pub is_finite : ℕ → Bool
is_finite bits = not (bits / 2 ^ 52 % 2 ^ 11 == 2047)

abbrev pub reserved_keys : List Bytes
reserved_keys =
    codes "ts"
    ∷ codes "level"
    ∷ codes "service"
    ∷ codes "environment"
    ∷ codes "sequence_id"
    ∷ codes "message"
    ∷ codes "context"
    ∷ []

unfoldable pub any_equal : Bytes → List Bytes → Bool
any_equal key [] = false
any_equal key (k ∷ keys) = str_eq key k || any_equal key keys

unfoldable pub is_reserved_field_key : Bytes → Bool
is_reserved_field_key key = any_equal key reserved_keys

unfoldable pub is_key_byte : ℕ → Bool
is_key_byte c = is_alnum c || c == b'_' || c == b'-' || c == b'.'

-- The loop of `mp_logger_is_valid_field_key`.
unfoldable pub all_key_bytes : Bytes → Bool
all_key_bytes [] = true
all_key_bytes (c ∷ key) = is_key_byte c && all_key_bytes key

unfoldable pub is_valid_field_key : Option Bytes → Bool
is_valid_field_key none = false
is_valid_field_key (some key) =
    if is_empty key || is_reserved_field_key key then false else all_key_bytes key

-- The inner loop: whether a later field has this key.
unfoldable pub has_key : Bytes → List Field → Bool
has_key key [] = false
has_key key (f ∷ fields) =
    elim f.key [ none ↦ false | some other ↦ str_eq key other ] || has_key key fields

-- The switch on the field's type.
unfoldable pub check_value : Config → FieldValue → Status
check_value c (field_string none) = status_ok
check_value c (field_string (some s)) =
    if leb c.field_value_capacity (length s) then limit_exceeded else status_ok
check_value c (field_bool b) = status_ok
check_value c (field_int64 n) = status_ok
check_value c (field_uint64 n) = status_ok
check_value c (field_float64 bits) = if is_finite bits then status_ok else invalid_argument
check_value c (field_other tag) = invalid_argument

-- One round of the outer loop, for a field's key and value and the later fields.
unfoldable pub check_field : Config → Option Bytes → FieldValue → List Field → Status
check_field c none value later = invalid_argument
check_field c (some key) value later =
    if not (is_valid_field_key (some key)) || leb c.field_key_capacity (length key)
    then invalid_argument
    else if has_key key later
    then invalid_argument
    else check_value c value

-- A round that finds a fault ends the loop with its status.
abbrev pub unless_ok : Status → Status → Status
unless_ok status_ok rest = rest
unless_ok fault rest = fault

unfoldable pub check_fields : Config → List Field → Status
check_fields c [] = status_ok
check_fields c (f ∷ fields) = unless_ok (check_field c f.key f.value fields) (check_fields c fields)

-- What a caller passes: a NULL pointer with a count, or an array with its length as the count.
pub data FieldArgs : Type 0 where
  null_fields : ℕ → FieldArgs
  fields_at : List Field → FieldArgs

abbrev pub fields_of : FieldArgs → List Field
fields_of (null_fields count) = []
fields_of (fields_at fields) = fields

unfoldable pub validate_fields : Config → FieldArgs → Status
validate_fields c (null_fields count) = if count == 0 then status_ok else invalid_argument
validate_fields c (fields_at fields) =
    if length fields == 0
    then status_ok
    else if ltb c.field_capacity (length fields)
    then limit_exceeded
    else check_fields c fields

-- A NULL text is copied as the empty one.
abbrev pub or_empty : Option Bytes → Bytes
or_empty none = []
or_empty (some s) = s

unfoldable pub copy_value : Config → FieldValue → FieldValue
copy_value c (field_string s) =
    field_string (some (copy_truncated c.field_value_capacity (some (or_empty s))).0)
copy_value c (field_bool b) = field_bool b
copy_value c (field_int64 n) = field_int64 n
copy_value c (field_uint64 n) = field_uint64 n
copy_value c (field_float64 bits) = field_float64 bits
copy_value c (field_other tag) = field_other tag

-- One round of either copy, to the slot and from it.
unfoldable pub copy_field : Config → Field → Field
copy_field c f = record {
  key = some (copy_truncated c.field_key_capacity f.key).0;
  value = copy_value c f.value;
}

-- The first fields of the slot's array are overwritten, the others stay.
unfoldable pub copy_fields_to_slot : Config → Slot → List Field → Slot
copy_fields_to_slot c slot fields = record slot {
  field_count = length fields;
  fields = map (copy_field c) fields ++ drop (length fields) slot.fields;
}

unfoldable pub copy_record_from_slot : Config → Slot → Record
copy_record_from_slot c slot = record {
  sequence_id = slot.sequence_id;
  unix_epoch_millis = slot.unix_epoch_millis;
  level = slot.level;
  message = take slot.message_length slot.message_buffer;
  context_text = take slot.context_length slot.context_buffer;
  fields = map (copy_field c) (take slot.field_count slot.fields);
}
