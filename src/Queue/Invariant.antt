-- ===== src/Queue/Invariant.antt =====
-- The representation invariant of the ring: no access outside the slots, no wrap of a `size_t`.
use native.Mathlib.Nat.{mod-add-mod}
use mp_logger.Common.{
  ℕ, ◌+◌, ◌-◌, ◌%◌, ◌≤◌, ◌<◌, ◌≡◌, ap, ◌∙◌, inl, inr, Bool, true, false, Option, some, arith, Bytes,
  leb, Bool-cases, Option-cases, add_size, size_mod, length, length-set,
}
use mp_logger.Common.Int.{ℤ}
use mp_logger.Status.{Level}
use mp_logger.Logger.{Record, Logger}
use mp_logger.Fields.{FieldArgs, copy_record_from_slot}
use mp_logger.Queue.{LogCall, slot_at, stage, try_stage, admit, enqueue_record, take_record}

pub record IsValid (l : Logger) : Type 0 where
  pub storage : length l.slots ≡ l.config.buffer_capacity
  pub capacity_fits : l.config.buffer_capacity < size_mod
  pub head_in : l.queue_head < l.config.buffer_capacity
  pub count_in : l.queue_count ≤ l.config.buffer_capacity
  pub tail_is : l.queue_tail ≡ (l.queue_head + l.queue_count) % l.config.buffer_capacity

next_tail :
    (capacity head count tail : ℕ)
    → capacity < size_mod
    → head < capacity
    → count < capacity
    → tail ≡ (head + count) % capacity
    → add_size tail 1 % capacity ≡ (head + add_size count 1) % capacity
next_tail capacity head count tail fits hh hc e =
    let inside : tail < capacity = omega arith in
    let next_count : add_size count 1 ≡ count + 1 = omega arith in
    let next : add_size tail 1 ≡ tail + 1 = omega arith in
    rw (next, next_count, e, mod-add-mod) (ap (λ k. k % capacity) (omega arith))

next_head :
    (capacity head count : ℕ)
    → capacity < size_mod
    → head < capacity
    → 0 < count
    → (head + count) % capacity ≡ (add_size head 1 % capacity + (count - 1)) % capacity
next_head capacity head count fits hh hc =
    let next : add_size head 1 ≡ head + 1 = omega arith in
    rw (next, mod-add-mod) (ap (λ k. k % capacity) (omega arith))

pub stage-IsValid :
    (l : Logger) (level : Level) (message : Bytes) (context_text : Option Bytes) (args : FieldArgs)
    (now : ℤ)
    → IsValid l
    → l.queue_count < l.config.buffer_capacity
    → IsValid (stage l level message context_text args now)
unfolding stage
stage-IsValid l level message context_text args now v room = record {
  storage = length-set l.slots l.queue_tail _ ∙ v.storage;
  capacity_fits = v.capacity_fits;
  head_in = v.head_in;
  count_in = omega arith;
  tail_is =
      next_tail l.config.buffer_capacity l.queue_head l.queue_count l.queue_tail v.capacity_fits
        v.head_in room v.tail_is;
}

-- The logger once the record at the head is taken.
abbrev pub without_head : Logger → Logger
without_head l = record l {
  queue_head = add_size l.queue_head 1 % l.config.buffer_capacity;
  queue_count = l.queue_count - 1;
}

without_head-IsValid : (l : Logger) → IsValid l → 0 < l.queue_count → IsValid (without_head l)
without_head-IsValid l v h = record {
  storage = v.storage;
  capacity_fits = v.capacity_fits;
  head_in = omega arith;
  count_in = omega arith;
  tail_is =
      v.tail_is
      ∙ next_head l.config.buffer_capacity l.queue_head l.queue_count v.capacity_fits v.head_in h;
}

-- What `take_record` returns, in terms of the count.
pub take_record_lem :
    (l : Logger) {r : Record} {l' : Logger}
    → take_record l ≡ some (r, l')
    → (0 < l.queue_count)
      × (r ≡ copy_record_from_slot l.config (slot_at l l.queue_head))
      × (l' ≡ without_head l)
unfolding take_record
take_record_lem l h = ground arith

-- If the queue is valid and a record is taken, the queue is valid afterwards.
pub take_record-IsValid :
    (l : Logger) {r : Record} {l' : Logger} → IsValid l → take_record l ≡ some (r, l') → IsValid l'
take_record-IsValid l v h =
    let (some_left, _, after) = take_record_lem l h in rw after (without_head-IsValid l v some_left)

try_stage-IsValid :
    (acquired : Bool) (now : ℤ) (l : Logger) (level : Level) (message : Bytes)
    (context_text : Option Bytes) (args : FieldArgs)
    → IsValid l
    → IsValid (try_stage acquired now l level message context_text args).1
unfolding try_stage
try_stage-IsValid false now l level message context_text args v = ground arith
try_stage-IsValid true now l level message context_text args v =
    elim (Bool-cases (leb l.config.buffer_capacity l.queue_count)) [
      | inl e ↦ rw e (ground arith)
      | inr e ↦ rw e (stage-IsValid l level message context_text args now v (ground arith))
    ]

pub admit-IsValid :
    (acquired : Bool) (now : ℤ) (l : Logger) (level : Level) (message : Bytes)
    (context_text : Option Bytes) (args : FieldArgs)
    → IsValid l
    → IsValid (admit acquired now l level message context_text args).1
unfolding admit
admit-IsValid acquired now l level message context_text args v =
    ground (arith, try_stage-IsValid acquired now l level message context_text args v)

-- A call, whatever its arguments and its status, leaves a valid queue valid.
pub enqueue_record-IsValid :
    (acquired : Bool) (now : ℤ) (l : Logger) (call : LogCall)
    → IsValid l
    → IsValid (enqueue_record acquired now l call).1
unfolding enqueue_record
enqueue_record-IsValid acquired now l call v = elim (Option-cases call.message) [
  | inl e ↦ rw e v
  | inr (message, e) ↦ rw e (
      ground (arith, admit-IsValid acquired now l call.level message call.context_text call.args v))
]

-- The slots that a call writes and that the worker reads are inside the array.
pub slots_in_bounds :
    (l : Logger) → IsValid l → (l.queue_head < length l.slots) × (l.queue_tail < length l.slots)
slots_in_bounds l v = omega arith
