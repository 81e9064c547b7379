-- ===== src/Fields/Copy.antt =====
-- Admitted fields are copied to a slot and back without loss.
use mp_logger.Common.{
  ℕ, ◌-◌, ◌<◌, ◌≡◌, refl, ap, ◌∙◌, List, [], ◌∷◌, map, Option, none, some, arith, Bytes, length,
  take-all,
}
use mp_logger.Text.{copy_truncated}
use mp_logger.Text.Truncate.{copy_truncated_lem}
use mp_logger.Config.{Config}
use mp_logger.Logger.{FieldValue, field_string, field_other, Field}
use mp_logger.Fields.{copy_value, copy_field, or_empty}
use mp_logger.Fields.Validate.{ValueIsAdmitted, KeyIsAdmitted, FieldsAreAdmitted}

-- A field as the sinks see it: a NULL text is the empty text.
abbrev pub shown_value : FieldValue → FieldValue
shown_value (field_string s) = field_string (some (or_empty s))
shown_value value = value

abbrev pub shown : Field → Field
shown f = record f { value = shown_value f.value }

-- A text shorter than the array is copied whole.
copy_truncated_fits :
    (capacity : ℕ) (s : Bytes) → length s < capacity → (copy_truncated capacity (some s)).0 ≡ s
copy_truncated_fits capacity s h =
    ap (λ r. r.0) (copy_truncated_lem capacity s (omega arith))
    ∙ take-all (capacity - 1) s (omega arith)

copy_value-shown :
    (c : Config) (value : FieldValue)
    → 0 < c.field_value_capacity
    → ValueIsAdmitted c value
    → copy_value c value ≡ shown_value value
unfolding copy_value
copy_value-shown c (field_string none) pos h =
    ap (λ s. field_string (some s)) (copy_truncated_fits c.field_value_capacity [] (omega arith))
copy_value-shown c (field_string (some s)) pos h =
    ap (λ s. field_string (some s)) (copy_truncated_fits c.field_value_capacity s h)
copy_value-shown c (field_other tag) pos h = absurd h
copy_value-shown c _ pos h = refl

copy_key :
    (c : Config) (key : Option Bytes) (later : List Field)
    → KeyIsAdmitted c key later
    → some (copy_truncated c.field_key_capacity key).0 ≡ key
copy_key c none later h = absurd h
copy_key c (some key) later h = ap some (copy_truncated_fits c.field_key_capacity key h.1)

copy_field-shown :
    (c : Config) (f : Field) (later : List Field)
    → 0 < c.field_value_capacity
    → KeyIsAdmitted c f.key later
    → ValueIsAdmitted c f.value
    → copy_field c f ≡ shown f
unfolding copy_field
copy_field-shown c f later pos k v =
    λ i. record { key = copy_key c f.key later k i; value = copy_value-shown c f.value pos v i }

shown-IsAdmitted :
    (c : Config) (value : FieldValue)
    → 0 < c.field_value_capacity
    → ValueIsAdmitted c value
    → ValueIsAdmitted c (shown_value value)
shown-IsAdmitted c (field_string none) pos h = pos
shown-IsAdmitted c (field_string (some s)) pos h = h
shown-IsAdmitted c (field_other tag) pos h = absurd h
shown-IsAdmitted c _ pos h = h

shown_value_idem : (value : FieldValue) → shown_value (shown_value value) ≡ shown_value value
shown_value_idem (field_string s) = refl
shown_value_idem _ = refl

copy_field_twice :
    (c : Config) (f : Field) (later : List Field)
    → 0 < c.field_value_capacity
    → KeyIsAdmitted c f.key later
    → ValueIsAdmitted c f.value
    → copy_field c (copy_field c f) ≡ shown f
copy_field_twice c f later pos k v =
    ap (copy_field c) (copy_field-shown c f later pos k v)
    ∙ copy_field-shown c (shown f) later pos k (shown-IsAdmitted c f.value pos v)
    ∙ (λ i. record f { value = shown_value_idem f.value i })

-- If the capacity for values is not 0, two copies, to the slot and from it, give every field of an admitted list as it was, with an
-- empty text for a NULL one.
pub map-copy_field :
    (c : Config) (fields : List Field)
    → 0 < c.field_value_capacity
    → FieldsAreAdmitted c fields
    → map (copy_field c) (map (copy_field c) fields) ≡ map shown fields
map-copy_field c [] pos h = refl
map-copy_field c (f ∷ fields) pos h =
    λ i. copy_field_twice c f fields pos h.0 h.1 i ∷ map-copy_field c fields pos h.2 i
