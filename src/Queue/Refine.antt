-- ===== src/Queue/Refine.antt =====
-- The ring as a first-in first-out list of records.
use native.Mathlib.Nat.{add-zero}
use mp_logger.Common.{
  ℕ, suc, ◌+◌, ◌-◌, ◌%◌, ◌<◌, ◌≡◌, sym, ap, ◌∙◌, List, [], ◌∷◌, ◌++◌, map, Option, some, arith,
  Bytes, add_size, length, get_or, set, take, drop, length-map, map-append, take-append, take-all,
  length-take, get_or-set_self,
}
use mp_logger.Common.Int.{ℤ}
use mp_logger.Text.{copy_truncated}
use mp_logger.Text.Truncate.{copy_truncated_lem}
use mp_logger.Status.{Level}
use mp_logger.Config.{Config}
use mp_logger.Logger.{Slot, Record, Field, Logger}
use mp_logger.Fields.{
  FieldArgs, null_fields, fields_at, fields_of, copy_field, copy_fields_to_slot,
  copy_record_from_slot, or_empty,
}
use mp_logger.Fields.Validate.{FieldsAreAdmitted, ArgsAreAdmitted}
use mp_logger.Fields.Copy.{shown, map-copy_field}
use mp_logger.Queue.{blank_slot, slot_at, fill_slot, stage, take_record}
use mp_logger.Queue.Ring.{occupied, length-occupied, occupied-set, occupied_snoc}
use mp_logger.Queue.Invariant.{IsValid, take_record_lem}

-- The queued records, oldest first, as the worker will read them.
abbrev pub contents : Logger → List Record
contents l =
    map (copy_record_from_slot l.config)
      (occupied l.slots l.config.buffer_capacity l.queue_head l.queue_count)

pub length-contents : (l : Logger) → length (contents l) ≡ l.queue_count
length-contents l =
    length-map (copy_record_from_slot l.config)
      (occupied l.slots l.config.buffer_capacity l.queue_head l.queue_count)
    ∙ length-occupied l.slots l.config.buffer_capacity l.queue_head l.queue_count

-- The capacities that `mp_logger_validate_config` asks for, as far as the copies need them.
pub record HasRoom (c : Config) : Type 0 where
  pub message_room : 0 < c.message_capacity
  pub context_room : 0 < c.context_capacity
  pub value_room : 0 < c.field_value_capacity

-- The record that a call asks for: texts cut to what their buffers hold, fields in order.
abbrev pub requested : Config → Level → Bytes → Option Bytes → FieldArgs → ℕ → ℤ → Record
requested c level message context_text args sequence now = record {
  sequence_id = sequence;
  unix_epoch_millis = now;
  level = level;
  message = take (c.message_capacity - 1) message;
  context_text = take (c.context_capacity - 1) (or_empty context_text);
  fields = map shown (fields_of args);
}

take_cut :
    (capacity : ℕ) (s : Bytes)
    → 0 < capacity
    → take (copy_truncated capacity (some s)).1 (copy_truncated capacity (some s)).0
      ≡ take (capacity - 1) s
take_cut capacity s h =
    rw (copy_truncated_lem capacity s h)
      (take-all _ _ (omega (arith, length-take (capacity - 1) s)))

fields_admitted :
    (c : Config) (args : FieldArgs) → ArgsAreAdmitted c args → FieldsAreAdmitted c (fields_of args)
fields_admitted c (null_fields count) h = tt
fields_admitted c (fields_at fields) h = h.1

record-fill_slot :
    (l : Logger) (slot : Slot) (level : Level) (message : Bytes) (context_text : Option Bytes)
    (args : FieldArgs) (sequence : ℕ) (now : ℤ)
    → HasRoom l.config
    → ArgsAreAdmitted l.config args
    → copy_record_from_slot l.config (fill_slot l slot level message context_text args sequence now)
      ≡ requested l.config level message context_text args sequence now
unfolding copy_record_from_slot fill_slot copy_fields_to_slot
record-fill_slot l slot level message context_text args sequence now room ok = λ i. record {
  sequence_id = sequence;
  unix_epoch_millis = now;
  level = level;
  message = take_cut l.config.message_capacity message room.message_room i;
  context_text = take_cut l.config.context_capacity (or_empty context_text) room.context_room i;
  fields = copied i;
}
  where
    fields : List Field
    fields = fields_of args

    copied :
        map (copy_field l.config) (
          take
            (length fields)
            (map (copy_field l.config) fields ++ drop (length fields) slot.fields))
        ≡ map shown fields
    copied =
        ap (map (copy_field l.config)) (
          take-append (length fields) (map (copy_field l.config) fields) _
            (sym (length-map (copy_field l.config) fields)))
        ∙ map-copy_field l.config fields room.value_room (fields_admitted l.config args ok)

-- Staging a record appends it to the queue.
pub contents-stage :
    (l : Logger) (level : Level) (message : Bytes) (context_text : Option Bytes) (args : FieldArgs)
    (now : ℤ)
    → IsValid l
    → HasRoom l.config
    → ArgsAreAdmitted l.config args
    → l.queue_count < l.config.buffer_capacity
    → contents (stage l level message context_text args now)
      ≡ contents l
        ++ (requested l.config level message context_text args
              (add_size l.queued_records_total 1)
              now
            ∷ [])
unfolding stage
contents-stage l level message context_text args now v room ok free =
    let c = l.config in
    let cap = c.buffer_capacity in
    let slot =
      fill_slot l (slot_at l l.queue_tail) level message context_text args
        (add_size l.queued_records_total 1) now in
    let next : add_size l.queue_count 1 ≡ suc l.queue_count = omega arith in
    let slots = set l.slots l.queue_tail slot in
    let snoc = occupied_snoc slots cap l.queue_head l.queue_count v.head_in in
    let kept =
      occupied-set l.slots cap l.queue_head l.queue_count l.queue_tail 0 slot v.head_in
        (omega arith) (rw add-zero v.tail_is) in
    let written : get_or slots ((l.queue_head + l.queue_count) % cap) blank_slot ≡ slot =
      rw (← v.tail_is) (get_or-set_self l.slots l.queue_tail slot blank_slot (omega arith)) in
    let read =
      ap (copy_record_from_slot c) written
      ∙ record-fill_slot l (slot_at l l.queue_tail) level message context_text args
          (add_size l.queued_records_total 1) now room ok in
    ap (λ n. map (copy_record_from_slot c) (occupied slots cap l.queue_head n)) next
    ∙ ap (map (copy_record_from_slot c)) snoc
    ∙ map-append (copy_record_from_slot c) (occupied slots cap l.queue_head l.queue_count) _
    ∙ (λ i. map (copy_record_from_slot c) (kept i) ++ (read i ∷ []))

-- If the queue is valid and a record is taken, taking it gives the oldest one and leaves the others in their order.
pub take_record_refines :
    (l : Logger) {r : Record} {l' : Logger}
    → IsValid l
    → take_record l ≡ some (r, l')
    → contents l ≡ r ∷ contents l'
take_record_refines l v h =
    let (left, oldest, after) = take_record_lem l h in
    let c = l.config in
    let cap = c.buffer_capacity in
    let first : l.queue_count ≡ suc (l.queue_count - 1) = omega arith in
    let next : l.queue_head + 1 ≡ add_size l.queue_head 1 = omega arith in
    rw (oldest, after)
      (ap (λ n. map (copy_record_from_slot c) (occupied l.slots cap l.queue_head n)) first
        ∙ ap
            (λ n.
              copy_record_from_slot c (slot_at l l.queue_head)
              ∷ map (copy_record_from_slot c) (occupied l.slots cap (n % cap) (l.queue_count - 1)))
            next)
