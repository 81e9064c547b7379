-- ===== src/Logger.antt =====
-- `struct mp_logger` and the types of its members, from src/mp_logger_internal.h and
-- include/mp_logger.h.
use mp_logger.Common.{ℕ, Bool, Option, List, Bytes}
use mp_logger.Common.Int.{ℤ}
use mp_logger.Status.{Level}
use mp_logger.Config.{Config}

-- The tagged union of `mp_log_field_t`. A double is its 64-bit pattern; `other` is a value of the
-- tag outside the enumeration.
pub data FieldValue : Type 0 where
  field_string : Option Bytes → FieldValue
  field_bool : Bool → FieldValue
  field_int64 : ℤ → FieldValue
  field_uint64 : ℕ → FieldValue
  field_float64 : ℕ → FieldValue
  field_other : ℕ → FieldValue

-- `mp_log_field_t`; `none` is a NULL pointer.
pub record Field : Type 0 where
  pub key : Option Bytes
  pub value : FieldValue

-- `mp_log_slot_t`. A buffer is the C string that it holds, and `fields` the slot's array of fields,
-- each with the key and text in its own part of the slot's storage.
pub record Slot : Type 0 where
  pub sequence_id : ℕ
  pub unix_epoch_millis : ℤ
  pub level : Level
  pub message_length : ℕ
  pub context_length : ℕ
  pub field_count : ℕ
  pub message_buffer : Bytes
  pub context_buffer : Bytes
  pub fields : List Field

-- `mp_log_record_t`
pub record Record : Type 0 where
  pub sequence_id : ℕ
  pub unix_epoch_millis : ℤ
  pub level : Level
  pub message : Bytes
  pub context_text : Bytes
  pub fields : List Field

-- `mp_logger_stream_t`. The callbacks are functions of the client: of `write` and `destroy` the model
-- has whether they are there, and a stream's context is a number.
pub record Stream : Type 0 where
  pub stream_name : Bytes
  pub minimum_level : Level
  pub maximum_level : Level
  pub stream_context : ℕ
  pub has_write : Bool
  pub has_destroy : Bool

-- `streams` is the used part of the array, so its length is `stream_count`. A descriptor of -1 is
-- `none`. The blocks that the slots point into stand in Storage.
pub record Logger : Type 0 where
  pub config : Config
  pub run_suffix : Bytes
  pub slots : List Slot
  pub queue_head : ℕ
  pub queue_tail : ℕ
  pub queue_count : ℕ
  pub worker_started : Bool
  pub shutdown_requested : Bool
  pub streams : List Stream
  pub render_capacity : ℕ
  pub backup_fd : Option ℕ
  pub backup_path : Bytes
  pub queued_records_total : ℕ
  pub processed_records_total : ℕ
  pub dropped_busy_total : ℕ
  pub dropped_full_total : ℕ
  pub enabled_level_mask : ℕ
