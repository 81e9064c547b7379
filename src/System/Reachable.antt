-- ===== src/System/Reachable.antt =====
-- Every reachable state is sound.
use mathlib.Core.Path.{subst}
use mp_logger.Common.{ℕ, ◌≡◌, refl, sym, ap, ◌∙◌, ◌++◌, append-nil, Bool, [], some, arith, Bytes}
use mp_logger.Status.{Status, status_ok}
use mp_logger.Logger.{Logger}
use mp_logger.Fields.{validate_fields}
use mp_logger.Fields.Validate.{validate_fields_iff}
use mp_logger.Queue.{LogCall}
use mp_logger.Queue.History.{contents-none}
use mp_logger.Queue.Invariant.{IsValid}
use mp_logger.Queue.Refine.{contents, HasRoom}
use mp_logger.Render.Number.{Printer}
use mp_logger.Worker.{Callback}
use mp_logger.Worker.Loop.{Pc, ended, Worker, worker_enter}
use mp_logger.Lifecycle.{start}
use mp_logger.System.{
  inside, System, spawn, entered, Move, enter, commit, work, reconfigure, register, ask_shutdown,
  signal, woken, join, Moves, here, later, Step, move, starts, Reach, at_start, after, initial,
}
use mp_logger.System.Delivered.{HasDelivered, nothing}
use mp_logger.System.Frame.{configure-HasSameQueue, add_stream-HasSameQueue, start-HasSameQueue}
use mp_logger.System.Invariant.{IsSound, IsAdmitted-update, frame-IsSound, in_hand, uncounted}
use mp_logger.System.Commit.{commit-IsSound}
use mp_logger.System.Work.{work-IsSound}

enter-IsSound :
    (printer : Printer) (s : System) (i : ℕ) (call : LogCall) (message : Bytes)
    → call.message ≡ some message
    → validate_fields s.logger.config call.args ≡ status_ok
    → IsSound printer s
    → IsSound printer (entered s i call message)
enter-IsSound printer s i call message text ok v = record {
  valid = v.valid;
  room = v.room;
  admitted =
      IsAdmitted-update s.logger s.producers i (inside call message) v.admitted
        (text, (validate_fields_iff s.logger.config call.args).0 ok);
  delivered = v.delivered;
  written = v.written;
  fifo = v.fifo;
  queued = v.queued;
  counted = v.counted;
  processed = v.processed;
}

-- A thread that has been made has nothing in hand, and neither had the one before.
spawn-idle :
    (result : Status) (allocated : Bool) (l : Logger) (w : Worker)
    → w.pc ≡ ended
    → (in_hand (spawn result allocated l w).pc ≡ in_hand w.pc)
      × (uncounted (spawn result allocated l w).pc ≡ uncounted w.pc)
unfolding worker_enter
spawn-idle result allocated l w e = ground (arith, e)

woken-in_hand : (pc : Pc) → in_hand (woken pc) ≡ in_hand pc
woken-in_hand pc = ground arith

woken-uncounted : (pc : Pc) → uncounted (woken pc) ≡ uncounted pc
woken-uncounted pc = ground arith

module _ (printer : Printer) (callback : Callback) where
  Move-IsSound : {s t : System} → Move printer callback s t → IsSound printer s → IsSound printer t
  Move-IsSound {s} (enter i call message at text ok open_) v =
      enter-IsSound printer s i call message text ok v
  Move-IsSound {s} (commit i acquired now call message at free) v =
      commit-IsSound printer s i acquired now call message at v
  Move-IsSound {s} (work turn e) v = work-IsSound printer callback s turn e v
  Move-IsSound {s} (reconfigure c) v =
      frame-IsSound printer s _ s.worker (configure-HasSameQueue s.logger c) refl refl v
  Move-IsSound {s} (register stream) v =
      frame-IsSound printer s _ s.worker (add_stream-HasSameQueue s.logger stream) refl refl v
  Move-IsSound {s} ask_shutdown v = frame-IsSound printer s _ s.worker (ground arith) refl refl v
  Move-IsSound {s} signal v =
      frame-IsSound printer s s.logger _ (ground arith) (woken-in_hand s.worker.pc)
        (woken-uncounted s.worker.pc) v
  Move-IsSound {s} (join e) v = frame-IsSound printer s _ s.worker (ground arith) refl refl v

  pub Moves-IsSound :
      {s t : System} → Moves printer callback s t → IsSound printer s → IsSound printer t
  Moves-IsSound here v = v
  Moves-IsSound (later moves m) v = Move-IsSound m (Moves-IsSound moves v)

  Step-IsSound : {s t : System} → Step printer callback s t → IsSound printer s → IsSound printer t
  Step-IsSound (move m) v = Move-IsSound m v
  Step-IsSound {s} (starts spawned allocated e stopped) v =
      let idle = spawn-idle (start spawned s.logger).0 allocated s.logger s.worker e in
      frame-IsSound printer s _ _ (start-HasSameQueue spawned s.logger) idle.0 idle.1 v

  pub Reach-IsSound :
      {s t : System} → IsSound printer s → Reach printer callback s t → IsSound printer t
  Reach-IsSound v at_start = v
  Reach-IsSound v (after r st) = Step-IsSound st (Reach-IsSound v r)

-- Moves are steps.
pub Moves-Reach :
    (printer : Printer) (callback : Callback) {s t u : System}
    → Reach printer callback s t
    → Moves printer callback t u
    → Reach printer callback s u
Moves-Reach printer callback r here = r
Moves-Reach printer callback r (later moves m) =
    after (Moves-Reach printer callback r moves) (move m)

-- With nothing in hand and nothing queued, all accepted records are delivered.
pub accepted-delivered :
    (printer : Printer) (s : System) (v : IsSound printer s)
    → in_hand s.worker.pc ≡ []
    → s.logger.queue_count ≡ 0
    → s.accepted ≡ v.delivered
accepted-delivered printer s v hand empty =
    v.fifo
    ∙ ap (λ records. v.delivered ++ (records ++ contents s.logger)) hand
    ∙ ap (λ records. v.delivered ++ records) (contents-none s.logger empty)
    ∙ append-nil v.delivered

pub accepted-HasDelivered :
    (printer : Printer) (s : System)
    → IsSound printer s
    → in_hand s.worker.pc ≡ []
    → s.logger.queue_count ≡ 0
    → HasDelivered printer s.accepted s.journal
accepted-HasDelivered printer s v hand empty =
    subst (λ records. HasDelivered printer records s.journal)
      (sym (accepted-delivered printer s v hand empty)) v.written

-- A logger as it is created.
pub record IsFresh (l : Logger) : Type 0 where
  pub valid : IsValid l
  pub room : HasRoom l.config
  pub empty : l.queue_count ≡ 0
  pub none_queued : l.queued_records_total ≡ 0
  pub none_processed : l.processed_records_total ≡ 0

pub initial-IsSound : (printer : Printer) (l : Logger) → IsFresh l → IsSound printer (initial l)
initial-IsSound printer l f = record {
  valid = f.valid;
  room = f.room;
  admitted = λ i. tt;
  delivered = [];
  written = nothing;
  fifo = sym (contents-none l f.empty);
  queued = f.none_queued;
  counted = omega arith;
  processed = f.none_processed;
}
