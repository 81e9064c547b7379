-- ===== src/Queue/History.antt =====
-- Interleavings of producers and the worker: each event is one critical section on `queue_mutex` of
-- src/mp_logger.c, a call of `mp_logger_log_fields` or the removal of a record by the worker.
use mathlib.Core.Path.{subst}
use mp_logger.Common.{
  map, ℕ, ◌≡◌, ◌≢◌, refl, sym, ap, ◌∙◌, inl, inr, Bool, List, [], ◌∷◌, ◌++◌, append-nil,
  append_assoc, none, some, arith, Option-cases, add_size,
}
use mp_logger.Common.Int.{ℤ}
use mp_logger.Status.{Status, status_ok}
use mp_logger.Logger.{Record, Logger}
use mp_logger.Fields.{or_empty, copy_record_from_slot}
use mp_logger.Queue.Ring.{occupied}
use mp_logger.Queue.{LogCall, stage, enqueue_record, take_record}
use mp_logger.Queue.Invariant.{
  IsValid, enqueue_record-IsValid, take_record-IsValid, take_record_lem,
}
use mp_logger.Queue.Refine.{contents, HasRoom, requested, contents-stage, take_record_refines}
use mp_logger.Queue.Calls.{Status-cases, enqueue_record_ok, count_drop, enqueue_record_refuses}

-- A producer's call, with what `trylock` answers and the clock says, or a round of the worker.
pub data Event : Type 0 where
  produce : Bool → ℤ → LogCall → Event
  consume : Event

-- The record that a call with this status has put into the queue.
abbrev pub asked : Status → Logger → LogCall → ℤ → List Record
asked status_ok l call now =
    requested l.config call.level (or_empty call.message) call.context_text call.args
      (add_size l.queued_records_total 1) now
    ∷ []
asked _ l call now = []

-- The records that were answered OK, the records that the worker took, both in their order, and
-- the logger at the end.
pub record Outcome : Type 0 where
  pub accepted : List Record
  pub taken : List Record
  pub final : Logger

unfoldable pub run : Logger → List Event → Outcome
run l [] = record { accepted = []; taken = []; final = l }
run l (produce acquired now call ∷ events) =
    let (s, l') = enqueue_record acquired now l call in
    let rest = run l' events in record rest { accepted = asked s l call now ++ rest.accepted }
run l (consume ∷ events) = elim (take_record l) [
  | none ↦ run l events
  | some (r, l') ↦ let rest = run l' events in record rest { taken = r ∷ rest.taken }
]

contents-count_drop : (s : Status) (l : Logger) → contents (count_drop s l) ≡ contents l
contents-count_drop s l = ground arith

config-count_drop : (s : Status) (l : Logger) → (count_drop s l).config ≡ l.config
config-count_drop s l = ground arith

asked_none :
    (s : Status) (l : Logger) (call : LogCall) (now : ℤ) → s ≢ status_ok → asked s l call now ≡ []
asked_none s l call now h = ground arith

-- What one call does to the queue, whatever its status.
record IsStep (l : Logger) (call : LogCall) (now : ℤ) (s : Status) (l' : Logger) : Type 0 where
  same_config : l'.config ≡ l.config
  appended : contents l' ≡ contents l ++ asked s l call now

accepted-IsStep :
    (acquired : Bool) (now : ℤ) (l : Logger) (call : LogCall) {l' : Logger}
    → IsValid l
    → HasRoom l.config
    → enqueue_record acquired now l call ≡ (status_ok, l')
    → IsStep l call now status_ok l'
accepted-IsStep acquired now l call v room h =
    let (a, after) = enqueue_record_ok acquired now l call h in
    record {
      same_config = ap (λ m. m.config) after ∙ (unfold stage in refl);
      appended =
          ap contents after
          ∙ contents-stage l call.level a.message call.context_text call.args now v room
              a.args_admitted a.has_space
          ∙ ap
              (λ m.
                contents l
                ++ (requested l.config call.level (or_empty m) call.context_text call.args
                      (add_size l.queued_records_total 1) now
                    ∷ []))
              (sym a.has_message);
    }

refused-IsStep :
    (acquired : Bool) (now : ℤ) (l : Logger) (call : LogCall)
    → (enqueue_record acquired now l call).0 ≢ status_ok
    → IsStep l call now
        (enqueue_record acquired now l call).0
        (enqueue_record acquired now l call).1
refused-IsStep acquired now l call h =
    let s = (enqueue_record acquired now l call).0 in
    let after = enqueue_record_refuses acquired now l call h in
    record {
      same_config = ap (λ m. m.config) after ∙ config-count_drop s l;
      appended =
          ap contents after
          ∙ contents-count_drop s l
          ∙ sym (append-nil (contents l))
          ∙ ap (λ added. contents l ++ added) (sym (asked_none s l call now h));
    }

enqueue_record-IsStep :
    (acquired : Bool) (now : ℤ) (l : Logger) (call : LogCall)
    → IsValid l
    → HasRoom l.config
    → IsStep l call now
        (enqueue_record acquired now l call).0
        (enqueue_record acquired now l call).1
enqueue_record-IsStep acquired now l call v room =
    elim (Status-cases (enqueue_record acquired now l call).0) [
      | inl e ↦ rw e (
          accepted-IsStep acquired now l call v room
            (λ i. (e i, (enqueue_record acquired now l call).1)))
      | inr e ↦ refused-IsStep acquired now l call e
    ]

run_idle :
    (l : Logger) (events : List Event)
    → take_record l ≡ none
    → run l (consume ∷ events) ≡ run l events
unfolding run
run_idle l events e =
    ap
      (λ t. elim t [
        | none ↦ run l events
        | some (r, l') ↦ let rest = run l' events in record rest { taken = r ∷ rest.taken }
      ])
      e

run_take :
    (l : Logger) (events : List Event) {r : Record} {l' : Logger}
    → take_record l ≡ some (r, l')
    → run l (consume ∷ events) ≡ record (run l' events) { taken = r ∷ (run l' events).taken }
unfolding run
run_take l events e =
    ap
      (λ t. elim t [
        | none ↦ run l events
        | some (r, l') ↦ let rest = run l' events in record rest { taken = r ∷ rest.taken }
      ])
      e

-- From a logger whose queue is valid and whose texts have room for a byte, whatever calls and rounds
-- of the worker follow one another, in any order: the records that were
-- queued, then the accepted ones, are the records that the worker took, then those still queued.
-- So the worker takes every record that was answered OK once, in the order of the calls, or it is
-- still in the queue, and it takes no other.
pub run_lem :
    (l : Logger) (events : List Event)
    → IsValid l
    → HasRoom l.config
    → contents l ++ (run l events).accepted ≡ (run l events).taken ++ contents (run l events).final
unfolding run
run_lem l [] v room = append-nil (contents l)
run_lem l (produce acquired now call ∷ events) v room =
    let l' = (enqueue_record acquired now l call).1 in
    let step = enqueue_record-IsStep acquired now l call v room in
    sym (append_assoc (contents l) _ (run l' events).accepted)
    ∙ ap (λ queued. queued ++ (run l' events).accepted) (sym step.appended)
    ∙ run_lem l' events (enqueue_record-IsValid acquired now l call v) (rw step.same_config room)
run_lem l (consume ∷ events) v room = elim (Option-cases (take_record l)) [
  | inl e ↦ rw (run_idle l events e) (run_lem l events v room)
  | inr ((r, l'), e) ↦ rw (run_take l events e) (
      ap (λ queued. queued ++ (run l' events).accepted) (take_record_refines l v e)
      ∙ ap (◌∷◌ r) (
          run_lem l' events (take_record-IsValid l v e)
            (rw (ap (λ m. m.config) (take_record_lem l e).2) room)))
]

-- The records carry consecutive sequence numbers, from the one behind `n` on.
abbrev pub AreConsecutive : ℕ → List Record → Type 0
AreConsecutive n [] = Unit
AreConsecutive n (r ∷ records) =
    (r.sequence_id ≡ add_size n 1) × AreConsecutive (add_size n 1) records

total-count_drop :
    (s : Status) (l : Logger) → (count_drop s l).queued_records_total ≡ l.queued_records_total
total-count_drop s l = ground arith

total-accepted :
    (acquired : Bool) (now : ℤ) (l : Logger) (call : LogCall) {l' : Logger}
    → enqueue_record acquired now l call ≡ (status_ok, l')
    → l'.queued_records_total ≡ add_size l.queued_records_total 1
total-accepted acquired now l call h =
    ap (λ m. m.queued_records_total) (enqueue_record_ok acquired now l call h).1
    ∙ (unfold stage in refl)

-- The records of a call and those behind it.
asked-AreConsecutive :
    (acquired : Bool) (now : ℤ) (l : Logger) (call : LogCall) (later : List Record)
    → AreConsecutive (enqueue_record acquired now l call).1.queued_records_total later
    → AreConsecutive l.queued_records_total
        (asked (enqueue_record acquired now l call).0 l call now ++ later)
asked-AreConsecutive acquired now l call later h =
    elim (Status-cases (enqueue_record acquired now l call).0) [
      | inl e ↦
          let total =
            total-accepted acquired now l call
              (λ i. (e i, (enqueue_record acquired now l call).1)) in
          rw e (refl, rw (sym total) h)
      | inr e ↦
          let total =
            ap (λ m. m.queued_records_total) (enqueue_record_refuses acquired now l call e)
            ∙ total-count_drop (enqueue_record acquired now l call).0 l in
          rw (asked_none (enqueue_record acquired now l call).0 l call now e, sym total) h
    ]

pub contents-none : (l : Logger) → l.queue_count ≡ 0 → contents l ≡ []
contents-none l e =
    ap
      (λ n.
        map (copy_record_from_slot l.config)
          (occupied l.slots l.config.buffer_capacity l.queue_head n))
      e

-- The records that the calls ask for, in the order of the calls.
accepted-AreConsecutive :
    (l : Logger) (events : List Event)
    → AreConsecutive l.queued_records_total (run l events).accepted
unfolding run
accepted-AreConsecutive l [] = tt
accepted-AreConsecutive l (produce acquired now call ∷ events) =
    asked-AreConsecutive acquired now l call _
      (accepted-AreConsecutive (enqueue_record acquired now l call).1 events)
accepted-AreConsecutive l (consume ∷ events) = elim (Option-cases (take_record l)) [
  | inl e ↦ rw (run_idle l events e) (accepted-AreConsecutive l events)
  | inr ((r, l'), e) ↦ rw (run_take l events e) (
      rw (sym (ap (λ m. m.queued_records_total) (take_record_lem l e).2))
        (accepted-AreConsecutive l' events))
]

-- From an empty queue, whatever calls and rounds of the worker follow one another, in any order: the
-- records that the worker has read out of the slots, and behind them those that a read of the queued
-- slots gives at the end, carry consecutive sequence numbers, without a gap and from the one behind
-- the total at the start on. The queue is valid and empty, and the texts have room for a byte.
pub run-AreConsecutive :
    (l : Logger) (events : List Event)
    → IsValid l
    → HasRoom l.config
    → l.queue_count ≡ 0
    → AreConsecutive l.queued_records_total ((run l events).taken ++ contents (run l events).final)
run-AreConsecutive l events v room empty =
    let none_before : contents l ≡ [] = contents-none l empty in
    subst (AreConsecutive l.queued_records_total)
      (ap (λ queued. queued ++ (run l events).accepted) (sym none_before) ∙ run_lem l events v room)
      (accepted-AreConsecutive l events)
