-- ===== src/System.antt =====
-- The threads over one logger: producers in `mp_logger_enqueue_record`, the worker, and threads that
-- reconfigure the logger or shut it down, in any interleaving of their atomic pieces.
pub mod Delivered
pub mod Frame
pub mod Invariant
pub mod Commit
pub mod Work
pub mod Reachable
pub mod Flush
pub mod Race
pub mod Wakeup
pub mod Closing
pub mod Idle
pub mod Progress
pub mod Liveness
pub mod Drain
use mp_logger.Common.{
  ℕ, ◌+◌, ◌≡◌, Bool, true, false, ◌&&◌, List, [], ◌∷◌, ◌++◌, Option, none, some, Bytes, ◌==◌,
  if◌then◌else◌,
}
use mp_logger.Common.Int.{ℤ}
use mp_logger.Status.{Status, status_ok}
use mp_logger.Config.{Config}
use mp_logger.Logger.{Record, Stream, Logger}
use mp_logger.Fields.{validate_fields}
use mp_logger.Streams.{add_stream, configure}
use mp_logger.Queue.{LogCall, try_stage}
use mp_logger.Queue.History.{asked}
use mp_logger.Render.Number.{Printer}
use mp_logger.Worker.{Callback, Write}
use mp_logger.Worker.Loop.{
  Pc, waiting, checked, blocked, ended, Worker, Turn, worker_enter, worker_step,
}
use mp_logger.Lifecycle.{start}

-- A producer is outside of the call, or behind its tests and before `pthread_mutex_trylock`.
pub data Producer : Type 0 where
  outside : Producer
  inside : LogCall → Bytes → Producer

-- A piece of the worker's work: the logger that it found, and the calls of `write` that it made.
pub record Entry : Type 0 where
  pub found : Logger
  pub writes : List Write

-- The two lists are history: the records of the calls that were answered OK, in the order of the
-- answers, and all that the worker has done.
pub record System : Type 0 where
  pub logger : Logger
  pub producers : ℕ → Producer
  pub worker : Worker
  pub accepted : List Record
  pub journal : List Entry

abbrev pub update : (ℕ → Producer) → ℕ → Producer → ℕ → Producer
update producers i p j = if i == j then p else producers j

-- Whether the worker holds `queue_mutex` between two of its pieces.
abbrev pub holds_queue_mutex : Pc → Bool
holds_queue_mutex checked = true
holds_queue_mutex _ = false

-- `pthread_cond_signal` wakes a worker that is blocked, and is lost on any other.
abbrev pub woken : Pc → Pc
woken blocked = waiting
woken pc = pc

-- A producer behind the tests on its arguments and the read of `shutdown_requested`.
abbrev pub entered : System → ℕ → LogCall → Bytes → System
entered s i call message = record s { producers = update s.producers i (inside call message) }

-- A producer behind the rest of its call.
abbrev pub committed : System → ℕ → Bool → ℤ → LogCall → Bytes → System
committed s i acquired now call message =
    let done = try_stage acquired now s.logger call.level message call.context_text call.args in
    record s {
      logger = done.1;
      producers = update s.producers i outside;
      accepted = s.accepted ++ asked done.0 s.logger call now;
    }

abbrev pub worked : System → Turn → System
worked s turn = record s {
  logger = turn.logger;
  worker = turn.worker;
  journal = s.journal ++ (record { found = s.logger; writes = turn.writes } ∷ []);
}

-- The new thread, where `mp_logger_start` has made one.
abbrev pub spawn : Status → Bool → Logger → Worker → Worker
spawn status_ok allocated l w = (worker_enter allocated l).0
spawn _ allocated l w = w

module _ (printer : Printer) (callback : Callback) where
  -- The pieces of the threads. A call that fails a test has no effect. A producer that finds
  -- `queue_mutex` held does not acquire it. A shutdown first sets the flag, then signals without the
  -- mutex, and joins the worker later; a producer signals behind its call, too, and a wait may end
  -- without a signal.
  pub data Move (s : System) : System → Type 0 where
    enter :
        (i : ℕ) (call : LogCall) (message : Bytes)
        → s.producers i ≡ outside
        → call.message ≡ some message
        → validate_fields s.logger.config call.args ≡ status_ok
        → s.logger.shutdown_requested ≡ false
        → Move s (entered s i call message)
    commit :
        (i : ℕ) (acquired : Bool) (now : ℤ) (call : LogCall) (message : Bytes)
        → s.producers i ≡ inside call message
        → (acquired && holds_queue_mutex s.worker.pc) ≡ false
        → Move s (committed s i acquired now call message)
    work :
        (turn : Turn)
        → worker_step printer callback s.worker s.logger ≡ some turn
        → Move s (worked s turn)
    reconfigure : (c : Config) → Move s (record s { logger = (configure s.logger (some c)).1 })
    register :
        (stream : Stream) → Move s (record s { logger = (add_stream s.logger (some stream)).1 })
    ask_shutdown : Move s (record s { logger = record s.logger { shutdown_requested = true } })
    signal : Move s (record s { worker = record s.worker { pc = woken s.worker.pc } })
    join :
        s.worker.pc ≡ ended
        → Move s (record s { logger = record s.logger { worker_started = false } })

  pub data Moves (s : System) : System → Type 0 where
    here : Moves s s
    later : {t u : System} → Moves s t → Move t u → Moves s u

  -- `mp_logger_start` is for a logger without a worker. A start is one step: its callers do not overlap
  -- with each other, and what other threads do during a start comes before it or after it.
  pub data Step (s : System) : System → Type 0 where
    move : {t : System} → Move s t → Step s t
    starts :
        (spawned allocated : Bool)
        → s.worker.pc ≡ ended
        → s.logger.worker_started ≡ false
        → Step s (record s {
          logger = (start spawned s.logger).1;
          worker = spawn (start spawned s.logger).0 allocated s.logger s.worker;
        })

  pub data Reach (s : System) : System → Type 0 where
    at_start : Reach s s
    after : {t u : System} → Reach s t → Step t u → Reach s u

-- A logger that has just been created: no worker, and no call yet.
abbrev pub initial : Logger → System
initial l = record {
  logger = l;
  producers = λ i. outside;
  worker = record {
    pc = ended;
    reported = record { last_busy_total = 0; last_full_total = 0 };
    render_buffer = [];
  };
  accepted = [];
  journal = [];
}
