-- ===== src/System/Commit.antt =====
-- A producer's second piece keeps the invariant.
use mathlib.Core.Path.{subst}
use mp_logger.Common.{
  ℕ, ◌+◌, ◌%◌, ◌<◌, ◌≡◌, refl, sym, ap, ◌∙◌, inl, inr, Bool, true, false, List, [], ◌∷◌, ◌++◌,
  append-nil, append_assoc, arith, Bytes, leb, Bool-cases, add_size, size_mod, length,
  length-append,
}
use mp_logger.Common.Int.{ℤ}
use mp_logger.Status.{status_ok}
use mp_logger.Logger.{Record, Logger}
use mp_logger.Fields.{or_empty}
use mp_logger.Queue.{LogCall, stage, try_stage}
use mp_logger.Queue.Invariant.{IsValid, stage-IsValid}
use mp_logger.Queue.Refine.{contents, HasRoom, requested, contents-stage}
use mp_logger.Queue.History.{asked}
use mp_logger.Render.Number.{Printer}
use mp_logger.System.{outside, inside, System, committed}
use mp_logger.System.Frame.{
  HasSameCapacities, HasSameQueue, contents-queue, IsValid-queue, HasRoom-capacities,
}
use mp_logger.System.Invariant.{
  IsAdmitted, IsSound, IsAdmitted-update, IsAdmitted-capacities, in_hand,
}

-- What `try_stage` does to a logger: it appends `added` to the queue, and counts it.
record IsStaged (l l' : Logger) (added : List Record) : Type 0 where
  valid : IsValid l'
  capacities : HasSameCapacities l.config l'.config
  appended : contents l' ≡ contents l ++ added
  total :
      (n : ℕ)
      → l.queued_records_total ≡ n % size_mod
      → l'.queued_records_total ≡ (n + length added) % size_mod
  same_processed : l'.processed_records_total ≡ l.processed_records_total

refused-IsStaged : (l l' : Logger) → IsValid l → HasSameQueue l l' → IsStaged l l' []
refused-IsStaged l l' v h = record {
  valid = IsValid-queue l l' h v;
  capacities = h.same_capacities;
  appended = contents-queue l l' h ∙ sym (append-nil (contents l));
  total = λ n e. omega (arith, h.same_queued);
  same_processed = h.same_processed;
}

stage-IsStaged :
    (now : ℤ) (l : Logger) (call : LogCall) (message : Bytes)
    → IsValid l
    → HasRoom l.config
    → IsAdmitted l (inside call message)
    → l.queue_count < l.config.buffer_capacity
    → IsStaged l
        (stage l call.level message call.context_text call.args now)
        (asked status_ok l call now)
unfolding stage
stage-IsStaged now l call message v room a free = record {
  valid = stage-IsValid l call.level message call.context_text call.args now v free;
  capacities = ground arith;
  appended =
      contents-stage l call.level message call.context_text call.args now v room a.1 free
      ∙ ap
          (λ m.
            contents l
            ++ (requested l.config call.level (or_empty m) call.context_text call.args
                  (add_size l.queued_records_total 1) now
                ∷ []))
          (sym a.0);
  total = λ n e. omega arith;
  same_processed = refl;
}

try_stage-IsStaged :
    (acquired : Bool) (now : ℤ) (l : Logger) (call : LogCall) (message : Bytes)
    → IsValid l
    → HasRoom l.config
    → IsAdmitted l (inside call message)
    → let done = try_stage acquired now l call.level message call.context_text call.args in
      IsStaged l done.1 (asked done.0 l call now)
unfolding try_stage
try_stage-IsStaged false now l call message v room a = refused-IsStaged l _ v (ground arith)
try_stage-IsStaged true now l call message v room a =
    elim (Bool-cases (leb l.config.buffer_capacity l.queue_count)) [
      | inl full ↦ rw full (refused-IsStaged l _ v (ground arith))
      | inr free ↦ rw free (stage-IsStaged now l call message v room a (ground arith))
    ]

regroup : (a b c d : List Record) → (a ++ (b ++ c)) ++ d ≡ a ++ (b ++ (c ++ d))
regroup a b c d = append_assoc a (b ++ c) d ∙ ap (λ e. a ++ e) (append_assoc b c d)

-- The invariant after a producer's second piece.
pub commit-IsSound :
    (printer : Printer) (s : System) (i : ℕ) (acquired : Bool) (now : ℤ) (call : LogCall)
    (message : Bytes)
    → s.producers i ≡ inside call message
    → IsSound printer s
    → IsSound printer (committed s i acquired now call message)
commit-IsSound printer s i acquired now call message at v =
    let a : IsAdmitted s.logger (inside call message) =
      subst (IsAdmitted s.logger) at (v.admitted i) in
    let done = try_stage acquired now s.logger call.level message call.context_text call.args in
    let added = asked done.0 s.logger call now in
    let h = try_stage-IsStaged acquired now s.logger call message v.valid v.room a in
    record {
      valid = h.valid;
      room = HasRoom-capacities s.logger.config done.1.config h.capacities v.room;
      admitted =
          IsAdmitted-update done.1 s.producers i outside
            (λ j. IsAdmitted-capacities s.logger done.1 (s.producers j) h.capacities (v.admitted j))
            tt;
      delivered = v.delivered;
      written = v.written;
      fifo =
          ap (λ records. records ++ added) v.fifo
          ∙ regroup v.delivered (in_hand s.worker.pc) (contents s.logger) added
          ∙ ap (λ queue. v.delivered ++ (in_hand s.worker.pc ++ queue)) (sym h.appended);
      queued =
          h.total (length s.accepted) v.queued
          ∙ ap (λ n. n % size_mod) (sym (length-append s.accepted added));
      counted = v.counted;
      processed = h.same_processed ∙ v.processed;
    }
