-- ===== src/Queue/Calls.antt =====
-- What a call of `mp_logger_log_fields` does to the queue, accepted or refused.
use mp_logger.Common.{
  ◌<◌, ◌≡◌, ◌≢◌, ◌⊎◌, ◌↔◌, refl, ap, inl, inr, Bool, true, false, List, [], ◌∷◌, ◌++◌, Option, none,
  some, arith, Bytes, Option-cases, add_size,
}
use mp_logger.Common.Int.{ℤ}
use mp_logger.Status.{Status, status_ok, busy, queue_full, Level}
use mp_logger.Config.{Config}
use mp_logger.Logger.{FieldValue, Field, Logger}
use mp_logger.Fields.{
  FieldArgs, null_fields, fields_at, validate_fields, unless_ok, check_value, check_field,
  check_fields,
}
use mp_logger.Fields.Validate.{ArgsAreAdmitted, validate_fields_iff}
use mp_logger.Queue.{LogCall, stage, try_stage, admit, enqueue_record}
use mp_logger.Queue.Invariant.{IsValid}
use mp_logger.Queue.Refine.{contents, HasRoom, requested, contents-stage}

pub Status-cases : (s : Status) → (s ≡ status_ok) ⊎ (s ≢ status_ok)
Status-cases status_ok = inl refl
Status-cases _ = inr (λ e. cc)

-- The conditions under which a call is admitted.
pub record Admits (acquired : Bool) (l : Logger) (call : LogCall) : Type 0 where
  pub message : Bytes
  pub has_message : call.message ≡ some message
  pub args_admitted : ArgsAreAdmitted l.config call.args
  pub not_shut_down : l.shutdown_requested ≡ false
  pub has_mutex : acquired ≡ true
  pub has_space : l.queue_count < l.config.buffer_capacity

-- The queue after an admitted call.
abbrev pub staged : ℤ → Logger → LogCall → Bytes → Logger
staged now l call message = stage l call.level message call.context_text call.args now

admit_ok :
    (acquired : Bool) (now : ℤ) (l : Logger) (level : Level) (message : Bytes)
    (context_text : Option Bytes) (args : FieldArgs) {l' : Logger}
    → admit acquired now l level message context_text args ≡ (status_ok, l')
    → (l.shutdown_requested ≡ false)
      × (acquired ≡ true)
      × (l.queue_count < l.config.buffer_capacity)
      × (l' ≡ stage l level message context_text args now)
unfolding admit try_stage
admit_ok acquired now l level message context_text args h = ground arith

pub enqueue_record_ok :
    (acquired : Bool) (now : ℤ) (l : Logger) (call : LogCall) {l' : Logger}
    → enqueue_record acquired now l call ≡ (status_ok, l')
    → (a : Admits acquired l call) × (l' ≡ staged now l call a.message)
unfolding enqueue_record
enqueue_record_ok acquired now l call h = elim (Option-cases call.message) [
  | inl e ↦ cc (rw e at h)
  | inr (message, e) ↦ elim (Status-cases (validate_fields l.config call.args)) [
    | inr fault ↦ ground (arith, e)
    | inl ok ↦
        let (open_, mutex, space, after) =
          admit_ok acquired now l call.level message call.context_text call.args
            (ground (arith, e, ok)) in
        (
          record {
            message = message;
            has_message = e;
            args_admitted = (validate_fields_iff l.config call.args).0 ok;
            not_shut_down = open_;
            has_mutex = mutex;
            has_space = space;
          },
          after,
        )
  ]
]

enqueue_record_admitted :
    (acquired : Bool) (now : ℤ) (l : Logger) (call : LogCall) (a : Admits acquired l call)
    → enqueue_record acquired now l call ≡ (status_ok, staged now l call a.message)
unfolding enqueue_record admit try_stage
enqueue_record_admitted acquired now l call a =
    ground (arith, (validate_fields_iff l.config call.args).1 a.args_admitted)

-- A call is answered OK exactly if it has a text and admitted fields, the logger is not shut down,
-- the call gets the mutex and a slot is free.
pub enqueue_record_iff :
    (acquired : Bool) (now : ℤ) (l : Logger) (call : LogCall)
    → ((enqueue_record acquired now l call).0 ≡ status_ok) ↔ Admits acquired l call
enqueue_record_iff acquired now l call = (
  λ h.
      (enqueue_record_ok acquired now l call
        (λ i. (h i, (enqueue_record acquired now l call).1))).0,
  λ a. ap (λ r. r.0) (enqueue_record_admitted acquired now l call a),
)

-- In a logger whose queue is valid and whose texts have room for a byte: a call with a text and
-- admitted fields, of a logger that is not shut down and has a free slot, that gets the mutex, is answered OK, and appends the record that it asks for, with the next
-- sequence number, behind the records that were queued.
pub enqueue_record_appends :
    (now : ℤ) (l : Logger) (call : LogCall)
    → IsValid l
    → HasRoom l.config
    → (a : Admits true l call)
    → ((enqueue_record true now l call).0 ≡ status_ok)
      × (contents (enqueue_record true now l call).1
          ≡ contents l
            ++ (requested l.config call.level a.message call.context_text call.args
                  (add_size l.queued_records_total 1)
                  now
                ∷ []))
enqueue_record_appends now l call v room a = rw (enqueue_record_admitted true now l call a) (
  refl,
  contents-stage l call.level a.message call.context_text call.args now v room a.args_admitted
      a.has_space,
)

-- The counter of drops that a status stands for.
abbrev pub count_drop : Status → Logger → Logger
count_drop busy l = record l { dropped_busy_total = add_size l.dropped_busy_total 1 }
count_drop queue_full l = record l { dropped_full_total = add_size l.dropped_full_total 1 }
count_drop _ l = l

admit_refused :
    (acquired : Bool) (now : ℤ) (l : Logger) (level : Level) (message : Bytes)
    (context_text : Option Bytes) (args : FieldArgs)
    → let (s, l') = admit acquired now l level message context_text args in
      s ≢ status_ok → l' ≡ count_drop s l
unfolding admit try_stage
admit_refused acquired now l level message context_text args h = ground arith

module _ (c : Config) (l : Logger) where
  unless_ok_no_drop :
      (s t : Status) → count_drop s l ≡ l → count_drop t l ≡ l → count_drop (unless_ok s t) l ≡ l
  unless_ok_no_drop status_ok t hs ht = ht
  unless_ok_no_drop _ t hs ht = hs

  check_value_no_drop : (value : FieldValue) → count_drop (check_value c value) l ≡ l
  unfolding check_value
  check_value_no_drop value = ground arith

  check_field_no_drop :
      (key : Option Bytes) (value : FieldValue) (later : List Field)
      → count_drop (check_field c key value later) l ≡ l
  unfolding check_field
  check_field_no_drop none value later = refl
  check_field_no_drop (some key) value later = ground (arith, check_value_no_drop value)

  check_fields_no_drop : (fields : List Field) → count_drop (check_fields c fields) l ≡ l
  unfolding check_fields
  check_fields_no_drop [] = refl
  check_fields_no_drop (f ∷ fields) =
      unless_ok_no_drop (check_field c f.key f.value fields) (check_fields c fields)
        (check_field_no_drop f.key f.value fields) (check_fields_no_drop fields)

  validate_fields_no_drop : (args : FieldArgs) → count_drop (validate_fields c args) l ≡ l
  unfolding validate_fields
  validate_fields_no_drop (null_fields count) = ground arith
  validate_fields_no_drop (fields_at fields) = ground (arith, check_fields_no_drop fields)

-- A call that is not answered OK changes nothing but the counter of its drop: one more busy drop for
-- BUSY, one more full drop for QUEUE_FULL, nothing for any other status.
pub enqueue_record_refuses :
    (acquired : Bool) (now : ℤ) (l : Logger) (call : LogCall)
    → let (s, l') = enqueue_record acquired now l call in s ≢ status_ok → l' ≡ count_drop s l
unfolding enqueue_record
enqueue_record_refuses acquired now l call h = elim (Option-cases call.message) [
  | inl e ↦ ground (arith, e)
  | inr (message, e) ↦ elim (Status-cases (validate_fields l.config call.args)) [
    | inl ok ↦
        ground (
          arith,
          e,
          ok,
          admit_refused acquired now l call.level message call.context_text call.args,
        )
    | inr fault ↦ ground (arith, e, validate_fields_no_drop l.config l call.args)
  ]
]
