-- ===== src/System/Wakeup.antt =====
-- A shutdown, in src/mp_logger.c, whose signal the worker misses.
use mp_logger.Common.{ℕ, ◌≡◌, refl, ap, ◌∙◌, true, false, [], none, some, arith, ==_iff}
use mp_logger.Render.Number.{Printer}
use mp_logger.Worker.{Callback}
use mp_logger.Worker.Loop.{waiting, checked, blocked, Turn, step_at, worker_step}
use mp_logger.System.{
  Producer, System, update, worked, work, ask_shutdown, signal, woken, Moves, here, later,
}
use mp_logger.System.Drain.{take_record-empty}

update-same : (producers : ℕ → Producer) (i : ℕ) (p : Producer) → update producers i p i ≡ p
update-same producers i p = rw ((==_iff i i).1 refl) refl

module _ (printer : Printer) (callback : Callback) where
  -- The two pieces of a worker that goes to sleep.
  abbrev tests : System → Turn
  tests s = record {
    worker = record s.worker { pc = checked };
    logger = s.logger;
    writes = [];
    notices = [];
  }

  abbrev blocks : System → Turn
  blocks s = record {
    worker = record s.worker { pc = blocked };
    logger = s.logger;
    writes = [];
    notices = [];
  }

  tests-steps :
      (s : System)
      → s.worker.pc ≡ waiting
      → s.logger.queue_count ≡ 0
      → s.logger.shutdown_requested ≡ false
      → worker_step printer callback s.worker s.logger ≡ some (tests s)
  unfolding worker_step step_at
  tests-steps s e empty running =
      ap (λ pc. step_at printer callback pc s.worker s.logger) e
      ∙ ground (arith, take_record-empty s.logger empty, running)

  -- The shutdown's store of the flag, and its signal behind it.
  abbrev pub announced : System → System
  announced s = record s {
    logger = record s.logger { shutdown_requested = true };
    worker = record s.worker { pc = woken s.worker.pc };
  }

  -- A shutdown whose signal comes between the worker's test of the flag and its wait is lost: some
  -- state that moves lead to is such that the two next moves can be the shutdown's store of the flag
  -- and its signal, which it makes without `queue_mutex`, and the next piece of the worker behind them
  -- leaves it blocked, with the flag set, no further piece of its own and no return. The worker waits
  -- at an empty queue and no shutdown has been requested.
  pub lost_signal_lem :
      (s : System)
      → s.worker.pc ≡ waiting
      → s.logger.queue_count ≡ 0
      → s.logger.shutdown_requested ≡ false
      → (u : System) × Moves printer callback s u
        × Moves printer callback u (announced u)
        × ((turn : Turn) × (worker_step printer callback (announced u).worker (announced u).logger
              ≡ some turn)
            × (turn.worker.pc ≡ blocked)
            × (turn.logger.shutdown_requested ≡ true)
            × (worker_step printer callback turn.worker turn.logger ≡ none))
  unfolding worker_step step_at
  lost_signal_lem s idle empty running = (
    worked s (tests s),
    later here (work _ (tests-steps s idle empty running)),
    later (later here ask_shutdown) signal,
    (blocks (announced (worked s (tests s))), refl, refl, refl, refl),
  )
