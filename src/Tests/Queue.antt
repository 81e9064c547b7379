-- ===== src/Tests/Queue.antt =====
-- The queue of two slots.
use native.Mathlib.Omega.{arith}
use mp_logger.Common.{List, false, ◌≡◌, ◌↔◌, ◌≢◌, refl, true, [], ◌∷◌, ◌++◌, some, none, codes}
use mp_logger.Common.Lists.{str_eq}
use mp_logger.Common.Int.{pos}
use mp_logger.Status.{status_ok, queue_full}
use mp_logger.Logger.{Logger, Record}
use mp_logger.Config.{config_init_defaults}
use mp_logger.Fields.{
  is_key_byte, is_valid_field_key, is_reserved_field_key, any_equal, all_key_bytes, has_key,
  check_field, check_value, check_fields, validate_fields, copy_record_from_slot,
}
use mp_logger.Fields.Validate.{validate_fields_iff}
use mp_logger.Text.{is_alnum, is_digit}
use mp_logger.Queue.{slot_at, stage, try_stage, admit, enqueue_record, take_record}
use mp_logger.Queue.Invariant.{IsValid, without_head, enqueue_record-IsValid, take_record-IsValid}
use mp_logger.Queue.Refine.{contents, HasRoom, requested, take_record_refines}
use mp_logger.Queue.Calls.{
  Admits, enqueue_record_appends, enqueue_record_iff, count_drop, enqueue_record_refuses,
}
use mp_logger.Queue.History.{
  Event, produce, consume, run, run_lem, AreConsecutive, run-AreConsecutive,
}
use mp_logger.Tests.Samples.{two_slots, small_config, greeting, null_message}

abbrev after_one : Logger
after_one = (enqueue_record true (pos 5) two_slots greeting).1

abbrev after_two : Logger
after_two = (enqueue_record true (pos 6) after_one greeting).1

pub two_slots-IsValid : IsValid two_slots
unfolding config_init_defaults
two_slots-IsValid = record {
  storage = refl;
  capacity_fits = omega arith;
  head_in = omega arith;
  count_in = omega arith;
  tail_is = refl;
}

two_slots-HasRoom : HasRoom two_slots.config
unfolding config_init_defaults
two_slots-HasRoom = record {
  message_room = omega arith;
  context_room = omega arith;
  value_room = omega arith;
}

greeting-IsAdmitted : Admits true two_slots greeting
unfolding config_init_defaults validate_fields check_fields check_field check_value
    is_valid_field_key is_reserved_field_key any_equal all_key_bytes str_eq is_key_byte is_alnum
    is_digit has_key
greeting-IsAdmitted = record {
  message = codes "hello";
  has_message = refl;
  args_admitted = (validate_fields_iff small_config greeting.args).0 refl;
  not_shut_down = refl;
  has_mutex = refl;
  has_space = omega arith;
}

-- A full queue refuses a third record.
third_call : (enqueue_record true (pos 7) after_two greeting).0 ≡ queue_full
unfolding config_init_defaults validate_fields check_fields check_field check_value
    is_valid_field_key is_reserved_field_key any_equal all_key_bytes str_eq is_key_byte is_alnum
    is_digit has_key enqueue_record admit try_stage stage
third_call = refl

enqueue_record_appends_example :
    ((enqueue_record true (pos 5) two_slots greeting).0 ≡ status_ok)
    × (contents (enqueue_record true (pos 5) two_slots greeting).1
        ≡ contents two_slots
          ++ (requested small_config 2 (codes "hello") none greeting.args 1 (pos 5) ∷ []))
unfolding greeting-IsAdmitted config_init_defaults
enqueue_record_appends_example =
    enqueue_record_appends (pos 5) two_slots greeting two_slots-IsValid two_slots-HasRoom
      greeting-IsAdmitted

enqueue_record_iff_example :
    ((enqueue_record true (pos 5) two_slots greeting).0 ≡ status_ok)
    ↔ Admits true two_slots greeting
enqueue_record_iff_example = enqueue_record_iff true (pos 5) two_slots greeting

after_one-IsValid : IsValid after_one
after_one-IsValid = enqueue_record-IsValid true (pos 5) two_slots greeting two_slots-IsValid

enqueue_record-IsValid_example : IsValid (enqueue_record true (pos 5) two_slots greeting).1
enqueue_record-IsValid_example =
    enqueue_record-IsValid true (pos 5) two_slots greeting two_slots-IsValid

-- What the worker takes from the queue of one record.
abbrev oldest : Record
oldest = copy_record_from_slot small_config (slot_at after_one 0)

abbrev emptied : Logger
emptied = without_head after_one

take_one : take_record after_one ≡ some (oldest, emptied)
unfolding config_init_defaults validate_fields check_fields check_field check_value
    is_valid_field_key is_reserved_field_key any_equal all_key_bytes str_eq is_key_byte is_alnum
    is_digit has_key enqueue_record admit try_stage stage take_record
take_one = refl

take_record_refines_example : contents after_one ≡ oldest ∷ contents emptied
take_record_refines_example = take_record_refines after_one after_one-IsValid take_one

take_record-IsValid_example : IsValid emptied
take_record-IsValid_example = take_record-IsValid after_one after_one-IsValid take_one

null_message_refused : (enqueue_record true (pos 5) two_slots null_message).0 ≢ status_ok
unfolding enqueue_record
null_message_refused = λ e. cc

full_refused : (enqueue_record true (pos 7) after_two greeting).0 ≢ status_ok
full_refused = rw third_call (λ e. cc)

enqueue_record_refuses_example :
    (enqueue_record true (pos 7) after_two greeting).1
    ≡ count_drop (enqueue_record true (pos 7) after_two greeting).0 after_two
enqueue_record_refuses_example = enqueue_record_refuses true (pos 7) after_two greeting full_refused

-- Calls that are accepted, refused and busy, and rounds of the worker, the last on an empty queue.
abbrev mixed : List Event
mixed =
    produce true (pos 5) greeting
    ∷ produce true (pos 6) null_message
    ∷ consume
    ∷ produce false (pos 7) greeting
    ∷ produce true (pos 8) greeting
    ∷ consume
    ∷ consume
    ∷ []

run_lem_example :
    contents two_slots ++ (run two_slots mixed).accepted
    ≡ (run two_slots mixed).taken ++ contents (run two_slots mixed).final
run_lem_example = run_lem two_slots mixed two_slots-IsValid two_slots-HasRoom

run-AreConsecutive_example :
    AreConsecutive 0 ((run two_slots mixed).taken ++ contents (run two_slots mixed).final)
run-AreConsecutive_example =
    run-AreConsecutive two_slots mixed two_slots-IsValid two_slots-HasRoom refl
