-- ===== src/Tests/Samples.antt =====
-- The inputs of the tests: a logger with a queue of two slots and one stream, and calls of it.
use mp_logger.Common.{true, false, [], ◌∷◌, none, some, codes}
use mp_logger.Config.{Config, config_init_defaults}
use mp_logger.Logger.{Logger, Stream, Field, field_string, field_uint64}
use mp_logger.Queue.{LogCall, blank_slot}
use mp_logger.Fields.{fields_at}

abbrev pub small_config : Config
small_config = record config_init_defaults {
  buffer_capacity = 2;
  message_capacity = 4;
  context_capacity = 4;
  field_capacity = 2;
  field_key_capacity = 8;
  field_value_capacity = 8;
}

abbrev pub console : Stream
console = record {
  stream_name = codes "console";
  minimum_level = 2;
  maximum_level = 4;
  stream_context = 7;
  has_write = true;
  has_destroy = true;
}

abbrev pub two_slots : Logger
two_slots = record {
  config = small_config;
  run_suffix = codes "20260101T000000Z";
  slots = blank_slot ∷ blank_slot ∷ [];
  queue_head = 0;
  queue_tail = 0;
  queue_count = 0;
  worker_started = true;
  shutdown_requested = false;
  streams = console ∷ [];
  render_capacity = 256;
  backup_fd = some 3;
  backup_path = codes "mp-logger-internal.20260101T000000Z.log";
  queued_records_total = 0;
  processed_records_total = 0;
  dropped_busy_total = 0;
  dropped_full_total = 0;
  enabled_level_mask = 28;
}

abbrev pub user : Field
user = record { key = some (codes "user"); value = field_string (some (codes "ann")) }

abbrev pub tries : Field
tries = record { key = some (codes "tries"); value = field_uint64 3 }

abbrev pub greeting : LogCall
greeting = record {
  level = 2;
  message = some (codes "hello");
  context_text = none;
  args = fields_at (user ∷ tries ∷ []);
}

abbrev pub null_message : LogCall
null_message = record greeting { message = none }
