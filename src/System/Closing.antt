-- ===== src/System/Closing.antt =====
-- The last part of a logger's life: a shutdown has been requested and no producer is in a call.
use mp_logger.Common.{ℕ, ◌≡◌, true}
use mp_logger.Logger.{Logger}
use mp_logger.Config.{Config}
use mp_logger.Worker.Loop.{Worker}
use mp_logger.System.{outside, System}
use mp_logger.System.Drain.{HasDrained}

record IsClosing (s : System) : Type 0 where
  closed : s.logger.shutdown_requested ≡ true
  idle : (i : ℕ) → s.producers i ≡ outside
  drained : HasDrained s.worker.pc s.logger
