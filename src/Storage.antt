-- ===== src/Storage.antt =====
-- `mp_logger_allocate_buffers` of src/mp_logger.c: the sizes of the queue's blocks, and the part of
-- each that a slot gets.
pub mod Parts
use mp_logger.Common.{
  ℕ, zero, suc, ◌+◌, ◌*◌, ◌%◌, Bool, true, false, ◌&&◌, List, [], ◌∷◌, Option, none, some, Bytes,
  codes, if◌then◌else◌, size_mod, replicate,
}
use mp_logger.Common.Int.{pos}
use mp_logger.Status.{Status, status_ok, io_error, level_trace}
use mp_logger.Config.{Config}
use mp_logger.Logger.{Field, field_string, Slot}

-- The product in `size_t`.
abbrev pub mul_size : ℕ → ℕ → ℕ
mul_size a b = (a * b) % size_mod

-- The arguments of a `calloc`, in its order; the sizes of the two structures are those of the
-- platform.
pub record Request : Type 0 where
  pub number : ℕ
  pub size : ℕ

pub record Requests : Type 0 where
  pub slots : Request
  pub message_storage : Request
  pub context_storage : Request
  pub field_storage : Request
  pub field_key_storage : Request
  pub field_string_storage : Request

unfoldable pub requests : ℕ → ℕ → Config → Requests
requests slot_size field_size c =
    let all_fields = mul_size c.buffer_capacity c.field_capacity in
    record {
      slots = record { number = c.buffer_capacity; size = slot_size };
      message_storage = record { number = mul_size c.buffer_capacity c.message_capacity; size = 1 };
      context_storage = record { number = mul_size c.buffer_capacity c.context_capacity; size = 1 };
      field_storage = record { number = all_fields; size = field_size };
      field_key_storage = record { number = mul_size all_fields c.field_key_capacity; size = 1 };
      field_string_storage = record {
        number = mul_size all_fields c.field_value_capacity;
        size = 1;
      };
    }

-- Where the parts of a slot begin, in elements from the start of their blocks.
pub record SlotParts : Type 0 where
  pub message_buffer : ℕ
  pub context_buffer : ℕ
  pub fields : ℕ
  pub field_key_storage : ℕ
  pub field_string_storage : ℕ

unfoldable pub parts : Config → ℕ → SlotParts
parts c index = record {
  message_buffer = mul_size index c.message_capacity;
  context_buffer = mul_size index c.context_capacity;
  fields = mul_size index c.field_capacity;
  field_key_storage = mul_size (mul_size index c.field_capacity) c.field_key_capacity;
  field_string_storage = mul_size (mul_size index c.field_capacity) c.field_value_capacity;
}

-- A slot of zeros, with its array of fields.
abbrev empty_field : Field
empty_field = record { key = none; value = field_string none }

unfoldable pub empty_slot : Config → Slot
empty_slot c = record {
  sequence_id = 0;
  unix_epoch_millis = pos 0;
  level = level_trace;
  message_length = 0;
  context_length = 0;
  field_count = 0;
  message_buffer = codes "";
  context_buffer = codes "";
  fields = replicate c.field_capacity empty_field;
}

-- Whether each `calloc` has answered a block, in the order of the calls.
pub record Blocks : Type 0 where
  pub slots : Bool
  pub message_storage : Bool
  pub context_storage : Bool
  pub field_storage : Bool
  pub field_key_storage : Bool
  pub field_string_storage : Bool

unfoldable pub allocate_buffers : Blocks → Config → Status × List Slot
allocate_buffers b c =
    if b.slots && b.message_storage && b.context_storage && b.field_storage && b.field_key_storage
      && b.field_string_storage
    then (status_ok, replicate c.buffer_capacity (empty_slot c))
    else (io_error, [])
