-- ===== src/System/Frame.antt =====
-- What the operations that leave the queue alone keep of a logger, and what depends on nothing else.
use mathlib.Core.Path.{fun_ext}
use mp_logger.Common.{◌≡◌, refl, Bool, List, [], ◌∷◌, map, Option, none, some, arith, Bytes}
use mp_logger.Text.{copy_truncated}
use mp_logger.Config.{Config}
use mp_logger.Logger.{FieldValue, field_string, field_other, Field, Slot, Stream, Logger}
use mp_logger.Fields.{
  copy_value, copy_field, copy_record_from_slot, FieldArgs, null_fields, fields_at,
}
use mp_logger.Fields.Validate.{ValueIsAdmitted, KeyIsAdmitted, FieldsAreAdmitted, ArgsAreAdmitted}
use mp_logger.Streams.{
  add_stream, add_owned_stream, configure, apply_config_to_streams, refresh_enabled_level_mask,
  take_over,
}
use mp_logger.Queue.Ring.{occupied}
use mp_logger.Queue.Invariant.{IsValid}
use mp_logger.Queue.Refine.{contents, HasRoom}
use mp_logger.Lifecycle.{start}

pub record HasSameCapacities (c c' : Config) : Type 0 where
  pub same_buffer : c'.buffer_capacity ≡ c.buffer_capacity
  pub same_message : c'.message_capacity ≡ c.message_capacity
  pub same_context : c'.context_capacity ≡ c.context_capacity
  pub same_field : c'.field_capacity ≡ c.field_capacity
  pub same_key : c'.field_key_capacity ≡ c.field_key_capacity
  pub same_value : c'.field_value_capacity ≡ c.field_value_capacity

pub record HasSameQueue (l l' : Logger) : Type 0 where
  pub same_capacities : HasSameCapacities l.config l'.config
  pub same_slots : l'.slots ≡ l.slots
  pub same_head : l'.queue_head ≡ l.queue_head
  pub same_tail : l'.queue_tail ≡ l.queue_tail
  pub same_count : l'.queue_count ≡ l.queue_count
  pub same_queued : l'.queued_records_total ≡ l.queued_records_total
  pub same_processed : l'.processed_records_total ≡ l.processed_records_total

pub configure-HasSameQueue : (l : Logger) (c : Config) → HasSameQueue l (configure l (some c)).1
unfolding configure apply_config_to_streams refresh_enabled_level_mask take_over
configure-HasSameQueue l c = ground arith

pub add_stream-HasSameQueue : (l : Logger) (s : Stream) → HasSameQueue l (add_stream l (some s)).1
unfolding add_stream add_owned_stream
add_stream-HasSameQueue l s = ground arith

pub start-HasSameQueue : (spawned : Bool) (l : Logger) → HasSameQueue l (start spawned l).1
unfolding start
start-HasSameQueue spawned l = ground arith

module _ (c c' : Config) (h : HasSameCapacities c c') where
  copy_value-capacities : (v : FieldValue) → copy_value c' v ≡ copy_value c v
  unfolding copy_value
  copy_value-capacities (field_string s) = rw h.same_value refl
  copy_value-capacities _ = refl

  copy_field-capacities : (f : Field) → copy_field c' f ≡ copy_field c f
  unfolding copy_field
  copy_field-capacities f = λ i. record {
    key = some (copy_truncated (h.same_key i) f.key).0;
    value = copy_value-capacities f.value i;
  }

  copy_record-capacities :
      (slot : Slot) → copy_record_from_slot c' slot ≡ copy_record_from_slot c slot
  unfolding copy_record_from_slot
  copy_record-capacities slot = rw (fun_ext copy_field-capacities) refl

  ValueIsAdmitted-capacities : (v : FieldValue) → ValueIsAdmitted c v → ValueIsAdmitted c' v
  ValueIsAdmitted-capacities (field_string none) a = a
  ValueIsAdmitted-capacities (field_string (some s)) a = omega (arith, h.same_value)
  ValueIsAdmitted-capacities (field_other tag) a = a
  ValueIsAdmitted-capacities _ a = a

  KeyIsAdmitted-capacities :
      (key : Option Bytes) (later : List Field)
      → KeyIsAdmitted c key later
      → KeyIsAdmitted c' key later
  KeyIsAdmitted-capacities none later a = a
  KeyIsAdmitted-capacities (some key) later a = rw h.same_key a

  FieldsAreAdmitted-capacities :
      (fields : List Field) → FieldsAreAdmitted c fields → FieldsAreAdmitted c' fields
  FieldsAreAdmitted-capacities [] a = tt
  FieldsAreAdmitted-capacities (f ∷ fields) a = (
    KeyIsAdmitted-capacities f.key fields a.0,
    ValueIsAdmitted-capacities f.value a.1,
    FieldsAreAdmitted-capacities fields a.2,
  )

  pub ArgsAreAdmitted-capacities :
      (args : FieldArgs) → ArgsAreAdmitted c args → ArgsAreAdmitted c' args
  ArgsAreAdmitted-capacities (null_fields count) a = a
  ArgsAreAdmitted-capacities (fields_at fields) a =
      (omega (arith, h.same_field), FieldsAreAdmitted-capacities fields a.1)

  pub HasRoom-capacities : HasRoom c → HasRoom c'
  HasRoom-capacities room = omega arith

module _ (l l' : Logger) (h : HasSameQueue l l') where
  pub contents-queue : contents l' ≡ contents l
  contents-queue = λ i.
      map (fun_ext (copy_record-capacities l.config l'.config h.same_capacities) i) (
        occupied (h.same_slots i) (h.same_capacities.same_buffer i) (h.same_head i)
          (h.same_count i))

  pub IsValid-queue : IsValid l → IsValid l'
  IsValid-queue v = ground arith
