-- ===== src/System/Race.antt =====
-- A call of `mp_logger_log_fields` that overlaps a shutdown.
use mp_logger.Common.{ℕ, ◌<◌, ◌≡◌, refl, ap, ◌∙◌, true, false, [], ◌++◌, some, arith, Bytes, ==_iff}
use mp_logger.Common.Int.{ℤ}
use mp_logger.Status.{status_ok}
use mp_logger.Logger.{Logger}
use mp_logger.Fields.{validate_fields}
use mp_logger.Queue.{LogCall, try_stage}
use mp_logger.Queue.History.{asked}
use mp_logger.Render.Number.{Printer}
use mp_logger.Worker.{Callback, flush_drop_counters}
use mp_logger.Worker.Loop.{waiting, leaving, ended, Turn, step_at, worker_step}
use mp_logger.System.{
  Producer, outside, inside, System, update, entered, committed, worked, Move, enter, commit, work,
  reconfigure, register, ask_shutdown, signal, woken, join, Moves, here, later,
}
use mp_logger.System.Delivered.{all_writes, all_writes-quiet}
use mp_logger.System.Invariant.{IsSound}
use mp_logger.System.Drain.{ended-stops, take_record-empty}

update-same : (producers : ℕ → Producer) (i : ℕ) (p : Producer) → update producers i p i ≡ p
update-same producers i p = rw ((==_iff i i).1 refl) refl

module _ (printer : Printer) (callback : Callback) where
  -- The two last pieces of a worker that finds the flag set and the queue empty.
  abbrev leaves : System → Turn
  leaves s = record {
    worker = record s.worker { pc = leaving };
    logger = s.logger;
    writes = [];
    notices = [];
  }

  abbrev ends : System → Turn
  ends s =
      let (notices, last) = flush_drop_counters s.logger s.worker.reported in
      record {
        worker = record s.worker { pc = ended; reported = last };
        logger = s.logger;
        writes = [];
        notices = notices;
      }

  leaves-steps :
      (s : System)
      → s.worker.pc ≡ waiting
      → s.logger.queue_count ≡ 0
      → s.logger.shutdown_requested ≡ true
      → worker_step printer callback s.worker s.logger ≡ some (leaves s)
  unfolding worker_step step_at
  leaves-steps s e empty closed =
      ap (λ pc. step_at printer callback pc s.worker s.logger) e
      ∙ ground (arith, take_record-empty s.logger empty, closed)

  ends-steps :
      (s : System)
      → s.worker.pc ≡ leaving
      → worker_step printer callback s.worker s.logger ≡ some (ends s)
  unfolding worker_step step_at
  ends-steps s e = ap (λ pc. step_at printer callback pc s.worker s.logger) e

  try_stage-free :
      (now : ℤ) (l : Logger) (call : LogCall) (message : Bytes)
      → l.queue_count < l.config.buffer_capacity
      → (try_stage true now l call.level message call.context_text call.args).0 ≡ status_ok
  unfolding try_stage
  try_stage-free now l call message free = ground (arith, free)

  -- No move brings a worker back that has returned.
  Move-ended :
      {s t : System}
      → Move printer callback s t
      → s.worker.pc ≡ ended
      → (t.worker.pc ≡ ended) × (t.journal ≡ s.journal)
  unfolding worker_step
  Move-ended (enter i call message at text ok open_) e = (e, refl)
  Move-ended (commit i acquired now call message at free) e = (e, refl)
  Move-ended {s} (work turn h) e = absurd (ended-stops printer callback s.worker s.logger e h)
  Move-ended (reconfigure c) e = (e, refl)
  Move-ended (register stream) e = (e, refl)
  Move-ended ask_shutdown e = (e, refl)
  Move-ended signal e = (ap woken e, refl)
  Move-ended (join h) e = (e, refl)

  Moves-ended :
      {s t : System}
      → Moves printer callback s t
      → s.worker.pc ≡ ended
      → (t.worker.pc ≡ ended) × (t.journal ≡ s.journal)
  Moves-ended here e = (e, refl)
  Moves-ended (later moves m) e =
      let (e', same) = Moves-ended moves e in
      let (e'', same') = Move-ended m e' in (e'', same' ∙ same)

  -- After the producer's tests, the shutdown and the end of the worker.
  abbrev asked_to_stop : System → ℕ → LogCall → Bytes → System
  asked_to_stop s i call message = record (entered s i call message) {
    logger = record s.logger { shutdown_requested = true };
  }

  abbrev has_left : System → ℕ → LogCall → Bytes → System
  has_left s i call message =
      let asked_ = asked_to_stop s i call message in worked asked_ (leaves asked_)

  abbrev overtaken : System → ℕ → LogCall → Bytes → System
  overtaken s i call message = let left = has_left s i call message in worked left (ends left)

  overtaken-Moves :
      (s : System) (i : ℕ) (call : LogCall) (message : Bytes)
      → s.worker.pc ≡ waiting
      → s.logger.queue_count ≡ 0
      → s.logger.shutdown_requested ≡ false
      → s.producers i ≡ outside
      → call.message ≡ some message
      → validate_fields s.logger.config call.args ≡ status_ok
      → Moves printer callback s (overtaken s i call message)
  overtaken-Moves s i call message idle empty running at text ok =
      later
        (later (later (later here (enter i call message at text ok running)) ask_shutdown)
          (work _ (leaves-steps (asked_to_stop s i call message) idle empty refl)))
        (work _ (ends-steps (has_left s i call message) refl))

  -- A call that has passed its test of `shutdown_requested` can be overtaken by a shutdown: there is
  -- an interleaving in which the call is answered OK and its record is accepted, while the worker has
  -- returned, and whatever the threads do then, no stream has got or gets anything more than before
  -- the interleaving, until the logger is started again. The system is sound, the worker waits at an empty queue, no shutdown has been
  -- requested, the producer is outside, and the call has a text and fields that pass validation.
  pub race_lem :
      (s : System) (i : ℕ) (now : ℤ) (call : LogCall) (message : Bytes)
      → IsSound printer s
      → s.worker.pc ≡ waiting
      → s.logger.queue_count ≡ 0
      → s.logger.shutdown_requested ≡ false
      → s.producers i ≡ outside
      → call.message ≡ some message
      → validate_fields s.logger.config call.args ≡ status_ok
      → (t : System) × Moves printer callback s t
        × (t.accepted ≡ s.accepted ++ asked status_ok s.logger call now)
        × ((u : System)
            → Moves printer callback t u
            → (u.worker.pc ≡ ended) × (all_writes u.journal ≡ all_writes s.journal))
  race_lem s i now call message v idle empty running at text ok =
      let before = overtaken s i call message in
      let left = has_left s i call message in
      let producer = update-same s.producers i (inside call message) in
      let free =
        try_stage-free now before.logger call message (omega (arith, v.valid.head_in, empty)) in
      let silent : all_writes before.journal ≡ all_writes s.journal =
        all_writes-quiet left.journal _ refl ∙ all_writes-quiet s.journal _ refl in
      (
        committed before i true now call message,
        later (overtaken-Moves s i call message idle empty running at text ok)
            (commit i true now call message producer refl),
        ap (λ result. s.accepted ++ asked result before.logger call now) free,
        λ u moves. let (e, same) = Moves-ended moves refl in (e, ap all_writes same ∙ silent),
      )
