-- ===== src/System/Progress.antt =====
-- The worker left to itself while the logger is open, and the flush that waits for it.
use mathlib.Core.Path.{subst}
use mp_logger.Common.{
  ℕ, zero, suc, ◌+◌, ◌*◌, ◌≤◌, ◌≡◌, ◌⊎◌, refl, sym, ap, ◌∙◌, inl, inr, true, false, List, [], ◌∷◌,
  ◌++◌, some, arith, Option-cases,
}
use mp_logger.Status.{status_ok}
use mp_logger.Logger.{Record, Logger}
use mp_logger.Queue.{take_record}
use mp_logger.Queue.Invariant.{take_record_lem}
use mp_logger.Render.Number.{Printer}
use mp_logger.Worker.{Callback}
use mp_logger.Worker.Loop.{
  Pc, waiting, checked, blocked, holding, sending, counting, leaving, ended, Worker, Turn, step_at,
  worker_step,
}
use mp_logger.Lifecycle.{Poll, wait_processed, flush}
use mp_logger.System.{System, worked}
use mp_logger.System.Invariant.{IsSound}
use mp_logger.System.Work.{work-IsSound}
use mp_logger.System.Delivered.{HasDelivered}
use mp_logger.System.Drain.{take_record-none}
use mp_logger.System.Idle.{HasCaughtUp, waiting-IsIdle, run_worker-idle}
use mp_logger.System.Liveness.{run_worker, run_worker-some}

-- The worker is in its loop and not in a wait.
abbrev pub IsAtWork : Pc → Type 0
IsAtWork checked = ⊥
IsAtWork blocked = ⊥
IsAtWork leaving = ⊥
IsAtWork ended = ⊥
IsAtWork _ = Unit

-- The pieces until it waits at an empty queue.
abbrev pieces_open : Pc → Logger → ℕ
pieces_open waiting l = 4 * l.queue_count
pieces_open (holding r) l = 4 * l.queue_count + 3
pieces_open (sending r) l = 4 * l.queue_count + 2
pieces_open (counting r) l = 4 * l.queue_count + 1
pieces_open checked l = 0
pieces_open blocked l = 0
pieces_open leaving l = 0
pieces_open ended l = 0

pieces_open_bound : (pc : Pc) (l : Logger) → pieces_open pc l ≤ 4 * l.queue_count + 3
pieces_open_bound pc l = ground arith

module _ (printer : Printer) (callback : Callback) where
  record IsAdvance (pc : Pc) (w : Worker) (l : Logger) (turn : Turn) : Type 0 where
    steps : step_at printer callback pc w l ≡ some turn
    at_work : IsAtWork turn.worker.pc
    running : turn.logger.shutdown_requested ≡ false
    fewer : suc (pieces_open turn.worker.pc turn.logger) ≡ pieces_open pc l

  taken-IsAdvance :
      (w : Worker) (l : Logger) {r : Record} {l' : Logger}
      → l.shutdown_requested ≡ false
      → take_record l ≡ some (r, l')
      → IsAdvance waiting w l
          (record { worker = record w { pc = holding r }; logger = l'; writes = []; notices = [] })
  unfolding step_at
  taken-IsAdvance w l running taken =
      let (positive, _, after) = take_record_lem l taken in
      record {
        steps = ground (arith, taken);
        at_work = tt;
        running = ap (λ m. m.shutdown_requested) after ∙ running;
        fewer = ap (λ m. suc (4 * m.queue_count + 3)) after ∙ omega (arith, positive);
      }

  advance :
      (pc : Pc) (w : Worker) (l : Logger)
      → IsAtWork pc
      → l.shutdown_requested ≡ false
      → ((pc ≡ waiting) × (l.queue_count ≡ 0)) ⊎ ((turn : Turn) × IsAdvance pc w l turn)
  unfolding step_at
  advance waiting w l at_work running = elim (Option-cases (take_record l)) [
    | inl empty ↦ inl (refl, take_record-none l empty)
    | inr ((r, l'), taken) ↦ inr (_, taken-IsAdvance w l running taken)
  ]
  advance (holding r) w l at_work running =
      inr (_, record { steps = refl; at_work = tt; running = running; fewer = omega arith })
  advance (sending r) w l at_work running =
      inr (_, record { steps = refl; at_work = tt; running = running; fewer = omega arith })
  advance (counting r) w l at_work running =
      inr (_, record { steps = refl; at_work = tt; running = running; fewer = omega arith })
  advance checked w l at_work running = absurd at_work
  advance blocked w l at_work running = absurd at_work
  advance leaving w l at_work running = absurd at_work
  advance ended w l at_work running = absurd at_work

  -- All that had been accepted is delivered and counted.
  run_worker-HasCaughtUp :
      (n : ℕ) (s : System)
      → IsSound printer s
      → IsAtWork s.worker.pc
      → s.logger.shutdown_requested ≡ false
      → pieces_open s.worker.pc s.logger ≤ n
      → HasCaughtUp printer s (run_worker printer callback n s)
  unfolding worker_step
  run_worker-HasCaughtUp zero s v at_work running enough =
      elim (advance s.worker.pc s.worker s.logger at_work running) [
        | inl (e, empty) ↦
            run_worker-idle printer callback zero s (waiting-IsIdle printer s v e empty running)
        | inr (turn, p) ↦ absurd (omega (arith, p.fewer))
      ]
  run_worker-HasCaughtUp (suc n) s v at_work running enough =
      elim (advance s.worker.pc s.worker s.logger at_work running) [
        | inl (e, empty) ↦
            run_worker-idle printer callback (suc n) s (waiting-IsIdle printer s v e empty running)
        | inr (turn, p) ↦
            let v' = work-IsSound printer callback s turn p.steps v in
            let rest =
              run_worker-HasCaughtUp n (worked s turn) v' p.at_work p.running
                (omega (arith, p.fewer)) in
            subst (HasCaughtUp printer s) (sym (run_worker-some printer callback n s p.steps))
              (record {
                delivered = rest.delivered;
                processed = rest.processed ∙ v'.queued ∙ sym v.queued;
              })
      ]

  -- A wait without timeout ends at the first round that reads enough, whatever came before.
  wait_processed-ends :
      (target deadline_millis : ℕ) (polls : List Poll) (p : Poll)
      → p.processed ≡ target
      → wait_processed target 0 deadline_millis (polls ++ (p ∷ [])) ≡ some status_ok
  unfolding wait_processed
  wait_processed-ends target deadline_millis [] p e = ground (arith, e)
  wait_processed-ends target deadline_millis (q ∷ polls) p e =
      ground (arith, wait_processed-ends target deadline_millis polls p e)

  -- A flush of a running logger ends: after at most 4 pieces of the worker alone for each queued
  -- record and 3 more, the records handed to the streams are those that had been accepted, in their
  -- order and each once, and a flush without timeout that reads the counter then answers OK, whatever
  -- its earlier rounds have read. The system is sound, `worker_started` is set, the worker is in its
  -- loop and not in a wait, and no shutdown has been requested.
  pub flush_ends :
      (s : System) (now time : ℕ) (polls : List Poll)
      → IsSound printer s
      → s.logger.worker_started ≡ true
      → IsAtWork s.worker.pc
      → s.logger.shutdown_requested ≡ false
      → let t = run_worker printer callback (4 * s.logger.queue_count + 3) s in
        HasDelivered printer s.accepted t.journal
        × (flush s.logger 0 now
              (polls ++ (record { processed = t.logger.processed_records_total; time = time } ∷ []))
            ≡ some status_ok)
  unfolding flush
  flush_ends s now time polls v started at_work running =
      let t = run_worker printer callback (4 * s.logger.queue_count + 3) s in
      let h =
        run_worker-HasCaughtUp (4 * s.logger.queue_count + 3) s v at_work running
          (pieces_open_bound s.worker.pc s.logger) in
      let ends =
        wait_processed-ends s.logger.queued_records_total (now + 0) polls
          (record { processed = t.logger.processed_records_total; time = time }) h.processed in
      (h.delivered, ground (arith, started, ends))
