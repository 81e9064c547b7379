-- ===== src/System/Invariant.antt =====
-- What holds in every reachable state.
use mp_logger.Common.{
  ℕ, ◌-◌, ◌%◌, ◌≤◌, ◌≡◌, ◌∙◌, inl, inr, List, [], ◌∷◌, ◌++◌, some, arith, ◌==◌, Bool-cases,
  size_mod, length,
}
use mp_logger.Logger.{Record, Logger}
use mp_logger.Fields.Validate.{ArgsAreAdmitted}
use mp_logger.Queue.Invariant.{IsValid}
use mp_logger.Queue.Refine.{contents, HasRoom}
use mp_logger.Render.Number.{Printer}
use mp_logger.System.Delivered.{HasDelivered}
use mp_logger.Worker.Loop.{Pc, holding, sending, counting, Worker}
use mp_logger.System.{Producer, outside, inside, System, update}
use mp_logger.System.Frame.{
  HasSameCapacities, HasSameQueue, ArgsAreAdmitted-capacities, HasRoom-capacities, contents-queue,
  IsValid-queue,
}

-- The record that the worker has taken and not yet handed on.
abbrev pub in_hand : Pc → List Record
in_hand (holding r) = r ∷ []
in_hand (sending r) = r ∷ []
in_hand _ = []

-- The records that were handed on and not yet counted.
abbrev pub uncounted : Pc → ℕ
uncounted (counting r) = 1
uncounted _ = 0

-- A producer behind the tests has a text and admitted fields.
abbrev pub IsAdmitted : Logger → Producer → Type 0
IsAdmitted l outside = Unit
IsAdmitted l (inside call message) =
    (call.message ≡ some message) × ArgsAreAdmitted l.config call.args

pub record IsSound (printer : Printer) (s : System) : Type 0 where
  pub valid : IsValid s.logger
  pub room : HasRoom s.logger.config
  pub admitted : (i : ℕ) → IsAdmitted s.logger (s.producers i)
  pub delivered : List Record
  pub written : HasDelivered printer delivered s.journal
  pub fifo : s.accepted ≡ delivered ++ (in_hand s.worker.pc ++ contents s.logger)
  pub queued : s.logger.queued_records_total ≡ length s.accepted % size_mod
  pub counted : uncounted s.worker.pc ≤ length delivered
  pub processed :
      s.logger.processed_records_total ≡ (length delivered - uncounted s.worker.pc) % size_mod

pub IsAdmitted-capacities :
    (l l' : Logger) (p : Producer)
    → HasSameCapacities l.config l'.config
    → IsAdmitted l p
    → IsAdmitted l' p
IsAdmitted-capacities l l' outside h a = tt
IsAdmitted-capacities l l' (inside call message) h a =
    (a.0, ArgsAreAdmitted-capacities l.config l'.config h call.args a.1)

pub IsAdmitted-update :
    (l : Logger) (producers : ℕ → Producer) (i : ℕ) (p : Producer)
    → ((j : ℕ) → IsAdmitted l (producers j))
    → IsAdmitted l p
    → (j : ℕ) → IsAdmitted l (update producers i p j)
IsAdmitted-update l producers i p others a j = elim (Bool-cases (i == j)) [
  | inl e ↦ rw e a
  | inr e ↦ rw e (others j)
]

-- A piece that leaves the queue alone, and what the worker has in hand.
pub frame-IsSound :
    (printer : Printer) (s : System) (l' : Logger) (w' : Worker)
    → HasSameQueue s.logger l'
    → in_hand w'.pc ≡ in_hand s.worker.pc
    → uncounted w'.pc ≡ uncounted s.worker.pc
    → IsSound printer s
    → IsSound printer (record s { logger = l'; worker = w' })
frame-IsSound printer s l' w' h hand count v = record {
  valid = IsValid-queue s.logger l' h v.valid;
  room = HasRoom-capacities s.logger.config l'.config h.same_capacities v.room;
  admitted =
      λ i. IsAdmitted-capacities s.logger l' (s.producers i) h.same_capacities (v.admitted i);
  delivered = v.delivered;
  written = v.written;
  fifo = rw (contents-queue s.logger l' h, hand) v.fifo;
  queued = h.same_queued ∙ v.queued;
  counted = omega (arith, v.counted);
  processed = rw (h.same_processed, count) v.processed;
}
