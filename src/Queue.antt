-- ===== src/Queue.antt =====
-- The bounded queue of src/mp_logger.c: `mp_logger_enqueue_record` with its callers, and the part of
-- `mp_logger_worker_main` that takes a record out under `queue_mutex`.
pub mod Ring
pub mod Invariant
pub mod Refine
pub mod Calls
pub mod History
use mp_logger.Common.{
  ℕ, ◌+◌, ◌-◌, ◌%◌, Bool, true, false, List, [], Option, none, some, Bytes, ltb, leb, ◌==◌,
  if◌then◌else◌, add_size, get_or, set,
}
use mp_logger.Common.Int.{ℤ, pos}
use mp_logger.Text.{copy_truncated}
use mp_logger.Status.{Status, status_ok, invalid_argument, not_running, busy, queue_full, Level}
use mp_logger.Logger.{Slot, Record, Logger}
use mp_logger.Fields.{
  FieldArgs, null_fields, fields_of, validate_fields, copy_fields_to_slot, copy_record_from_slot,
  or_empty,
}

-- A slot as `calloc` leaves it.
abbrev pub blank_slot : Slot
blank_slot = record {
  sequence_id = 0;
  unix_epoch_millis = pos 0;
  level = 0;
  message_length = 0;
  context_length = 0;
  field_count = 0;
  message_buffer = [];
  context_buffer = [];
  fields = [];
}

-- `queue_head` and `queue_tail` stay below the capacity, so every slot is read and written inside
-- the array.
abbrev pub slot_at : Logger → ℕ → Slot
slot_at l i = get_or l.slots i blank_slot

-- The arguments of a call of `mp_logger_log_fields`; `none` is a NULL text.
pub record LogCall : Type 0 where
  pub level : Level
  pub message : Option Bytes
  pub context_text : Option Bytes
  pub args : FieldArgs

-- The slot that is written, with the sequence number and the time of the call.
unfoldable pub fill_slot : Logger → Slot → Level → Bytes → Option Bytes → FieldArgs → ℕ → ℤ → Slot
fill_slot l slot level message context_text args sequence now =
    let (text, text_length) = copy_truncated l.config.message_capacity (some message) in
    let (context, context_length) =
      copy_truncated l.config.context_capacity (some (or_empty context_text)) in
    copy_fields_to_slot l.config
      (record slot {
        sequence_id = sequence;
        unix_epoch_millis = now;
        level = level;
        message_buffer = text;
        message_length = text_length;
        context_buffer = context;
        context_length = context_length;
      })
      (fields_of args)

-- The work under the mutex, once a slot is free.
unfoldable pub stage : Logger → Level → Bytes → Option Bytes → FieldArgs → ℤ → Logger
stage l level message context_text args now =
    let sequence = add_size l.queued_records_total 1 in
    record l {
      slots =
          set l.slots l.queue_tail
            (fill_slot l (slot_at l l.queue_tail) level message context_text args sequence now);
      queued_records_total = sequence;
      queue_tail = add_size l.queue_tail 1 % l.config.buffer_capacity;
      queue_count = add_size l.queue_count 1;
    }

-- From `pthread_mutex_trylock` on; the flag says whether it took the mutex.
unfoldable pub try_stage :
    Bool → ℤ → Logger → Level → Bytes → Option Bytes → FieldArgs → Status × Logger
try_stage acquired now l level message context_text args =
    if acquired
    then (if leb l.config.buffer_capacity l.queue_count
        then (queue_full, record l { dropped_full_total = add_size l.dropped_full_total 1 })
        else (status_ok, stage l level message context_text args now))
    else (busy, record l { dropped_busy_total = add_size l.dropped_busy_total 1 })

-- Before it: the test of `shutdown_requested`.
unfoldable pub admit :
    Bool → ℤ → Logger → Level → Bytes → Option Bytes → FieldArgs → Status × Logger
admit acquired now l level message context_text args =
    if l.shutdown_requested
    then (not_running, l)
    else try_stage acquired now l level message context_text args

-- A whole call, of a logger that is there.
unfoldable pub enqueue_record : Bool → ℤ → Logger → LogCall → Status × Logger
enqueue_record acquired now l call = elim call.message [
  | none ↦ (invalid_argument, l)
  | some message ↦ elim (validate_fields l.config call.args) [
    | status_ok ↦ admit acquired now l call.level message call.context_text call.args
    | fault ↦ (fault, l)
  ]
]

-- `mp_logger_log` and `mp_logger_log_fields`
unfoldable pub log : Bool → ℤ → Logger → Level → Option Bytes → Option Bytes → Status × Logger
log acquired now l level message context_text =
    enqueue_record acquired now l (record {
      level = level;
      message = message;
      context_text = context_text;
      args = null_fields 0;
    })

unfoldable pub log_fields : Bool → ℤ → Logger → LogCall → Status × Logger
log_fields = enqueue_record

-- The worker under the mutex: the record at the head, if there is one, and the queue without it.
unfoldable pub take_record : Logger → Option (Record × Logger)
take_record l =
    if ltb 0 l.queue_count
    then some (
      copy_record_from_slot l.config (slot_at l l.queue_head),
      record l {
        queue_head = add_size l.queue_head 1 % l.config.buffer_capacity;
        queue_count = l.queue_count - 1;
      },
    )
    else none
