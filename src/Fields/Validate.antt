-- ===== src/Fields/Validate.antt =====
-- Which fields `mp_logger_validate_fields` admits.
use mp_logger.Text.{is_alnum, is_digit}
use mp_logger.Common.Lists.{str_eq, str_eq_iff}
use mp_logger.Common.{
  ℕ, ◌≢◌, ◌⊎◌, Bool, codes, ◌||◌, ◌≤◌, ◌<◌, ◌≡◌, ◌↔◌, true, false, List, [], ◌∷◌, Option, none,
  some, arith, Bytes, length, is_empty, All,
}
use mp_logger.Status.{Status, status_ok}
use mp_logger.Config.{Config}
use mp_logger.Logger.{FieldValue, field_string, field_float64, field_other, Field}
use mp_logger.Fields.{
  is_finite, any_equal, reserved_keys, is_reserved_field_key, is_key_byte, all_key_bytes,
  is_valid_field_key, has_key, check_value, check_field, unless_ok, check_fields, FieldArgs,
  null_fields, fields_at, validate_fields,
}

-- A digit, a letter, `_`, `-` or `.`, in ASCII.
abbrev pub IsKeyByte : ℕ → Type 0
IsKeyByte c =
    ((48 ≤ c) × (c ≤ 57))
    ⊎ ((97 ≤ c) × (c ≤ 122))
    ⊎ ((65 ≤ c) × (c ≤ 90))
    ⊎ (c ≡ 95)
    ⊎ (c ≡ 45)
    ⊎ (c ≡ 46)

-- The keys that an entry has itself.
pub record IsUnreserved (key : Bytes) : Type 0 where
  pub not_ts : key ≢ codes "ts"
  pub not_level : key ≢ codes "level"
  pub not_service : key ≢ codes "service"
  pub not_environment : key ≢ codes "environment"
  pub not_sequence_id : key ≢ codes "sequence_id"
  pub not_message : key ≢ codes "message"
  pub not_context : key ≢ codes "context"

-- A key that is not empty, is none of the entry's own and has admitted bytes only.
abbrev pub IsKey : Bytes → Type 0
IsKey key = (key ≢ []) × IsUnreserved key × All IsKeyByte key

-- A text fits its buffer with the NUL, a double is finite, the tag is one of the enumeration.
abbrev pub ValueIsAdmitted : Config → FieldValue → Type 0
ValueIsAdmitted c (field_string none) = Unit
ValueIsAdmitted c (field_string (some s)) = length s < c.field_value_capacity
ValueIsAdmitted c (field_float64 bits) = is_finite bits ≡ true
ValueIsAdmitted c (field_other tag) = ⊥
ValueIsAdmitted c _ = Unit

abbrev pub KeyIsAdmitted : Config → Option Bytes → List Field → Type 0
KeyIsAdmitted c none later = ⊥
KeyIsAdmitted c (some key) later =
    IsKey key × (length key < c.field_key_capacity) × All (λ f. f.key ≢ some key) later

-- Every field has an admitted key, which no later field has, and an admitted value.
abbrev pub FieldsAreAdmitted : Config → List Field → Type 0
FieldsAreAdmitted c [] = Unit
FieldsAreAdmitted c (f ∷ fields) =
    KeyIsAdmitted c f.key fields × ValueIsAdmitted c f.value × FieldsAreAdmitted c fields

is_key_byte_iff : (c : ℕ) → (is_key_byte c ≡ true) ↔ IsKeyByte c
unfolding is_key_byte is_alnum is_digit
is_key_byte_iff c = ground arith

all_key_bytes_iff : (key : Bytes) → (all_key_bytes key ≡ true) ↔ All IsKeyByte key
unfolding all_key_bytes
all_key_bytes_iff [] = ground arith
all_key_bytes_iff (c ∷ key) = ground (arith, is_key_byte_iff c, all_key_bytes_iff key)

str_eq-false_iff : (a b : Bytes) → (str_eq a b ≡ false) ↔ (a ≢ b)
str_eq-false_iff a b = ground (arith, str_eq_iff a b)

or_false_iff : (a b : Bool) → ((a || b) ≡ false) ↔ ((a ≡ false) × (b ≡ false))
or_false_iff a b = ground arith

any_equal_iff :
    (key : Bytes) (keys : List Bytes) → (any_equal key keys ≡ false) ↔ All (λ k. key ≢ k) keys
unfolding any_equal
any_equal_iff key [] = ground arith
any_equal_iff key (k ∷ keys) = ground (
  arith,
  or_false_iff (str_eq key k) (any_equal key keys),
  str_eq-false_iff key k,
  any_equal_iff key keys,
)

is_reserved_field_key_iff : (key : Bytes) → (is_reserved_field_key key ≡ false) ↔ IsUnreserved key
unfolding is_reserved_field_key
is_reserved_field_key_iff key =
    let (to, from) = any_equal_iff key reserved_keys in
    (
      λ e.
          let (a, (b, (c, (d, (f, (g, (h, _))))))) = to e in
          record {
            not_ts = a;
            not_level = b;
            not_service = c;
            not_environment = d;
            not_sequence_id = f;
            not_message = g;
            not_context = h;
          },
      λ u. from (
        u.not_ts,
        (
          u.not_level,
          (
            u.not_service,
            (u.not_environment, (u.not_sequence_id, (u.not_message, (u.not_context, tt)))),
          ),
        ),
      ),
    )

is_empty_iff : (key : Bytes) → (is_empty key ≡ false) ↔ (key ≢ [])
is_empty_iff key = ground arith

is_valid_field_key_iff : (key : Bytes) → (is_valid_field_key (some key) ≡ true) ↔ IsKey key
unfolding is_valid_field_key
is_valid_field_key_iff key =
    ground (arith, is_empty_iff key, is_reserved_field_key_iff key, all_key_bytes_iff key)

other_key_iff :
    (key : Bytes) (other : Option Bytes)
    → ((elim other [ none ↦ false | some k ↦ str_eq key k ]) ≡ false) ↔ (other ≢ some key)
other_key_iff key none = ground arith
other_key_iff key (some k) = ground (arith, str_eq-false_iff key k)

has_key_iff :
    (key : Bytes) (later : List Field)
    → (has_key key later ≡ false) ↔ All (λ f. f.key ≢ some key) later
unfolding has_key
has_key_iff key [] = ground arith
has_key_iff key (f ∷ later) = ground (
  arith,
  other_key_iff key f.key,
  or_false_iff (elim f.key [ none ↦ false | some k ↦ str_eq key k ]) (has_key key later),
  has_key_iff key later,
)

check_value_iff :
    (c : Config) (value : FieldValue) → (check_value c value ≡ status_ok) ↔ ValueIsAdmitted c value
unfolding check_value
check_value_iff c (field_string none) = ground arith
check_value_iff c (field_string (some s)) = ground arith
check_value_iff c (field_float64 bits) = ground arith
check_value_iff c _ = ground arith

check_field_iff :
    (c : Config) (key : Option Bytes) (value : FieldValue) (later : List Field)
    → (check_field c key value later ≡ status_ok)
      ↔ (KeyIsAdmitted c key later × ValueIsAdmitted c value)
unfolding check_field
check_field_iff c none value later = ground arith
check_field_iff c (some key) value later =
    ground (arith, is_valid_field_key_iff key, check_value_iff c value, has_key_iff key later)

unless_ok_iff : (s t : Status) → (unless_ok s t ≡ status_ok) ↔ ((s ≡ status_ok) × (t ≡ status_ok))
unless_ok_iff s t = ground arith

pub check_fields_iff :
    (c : Config) (fields : List Field)
    → (check_fields c fields ≡ status_ok) ↔ FieldsAreAdmitted c fields
unfolding check_fields
check_fields_iff c [] = ground arith
check_fields_iff c (f ∷ fields) = ground (
  arith,
  unless_ok_iff (check_field c f.key f.value fields) (check_fields c fields),
  check_field_iff c f.key f.value fields,
  check_fields_iff c fields,
)

-- What a call may pass: no field, or an array within the capacity whose fields are all admitted.
abbrev pub ArgsAreAdmitted : Config → FieldArgs → Type 0
ArgsAreAdmitted c (null_fields count) = count ≡ 0
ArgsAreAdmitted c (fields_at fields) =
    (length fields ≤ c.field_capacity) × FieldsAreAdmitted c fields

-- Validation answers OK exactly for the admitted arguments.
pub validate_fields_iff :
    (c : Config) (args : FieldArgs) → (validate_fields c args ≡ status_ok) ↔ ArgsAreAdmitted c args
unfolding validate_fields
validate_fields_iff c (null_fields count) = ground arith
validate_fields_iff c (fields_at []) = ground arith
validate_fields_iff c (fields_at (f ∷ fields)) = ground (arith, check_fields_iff c (f ∷ fields))
