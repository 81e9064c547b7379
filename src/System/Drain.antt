-- ===== src/System/Drain.antt =====
-- What the worker does after `mp_logger_shutdown` has set its flag.
use mathlib.Core.Path.{subst}
use mp_logger.Common.{
  ℕ, suc, ◌+◌, ◌*◌, ◌≡◌, ◌≢◌, ◌⊎◌, refl, sym, ap, ◌∙◌, inl, inr, true, [], none, some, arith,
  Option-cases,
}
use mp_logger.Logger.{Record, Logger}
use mp_logger.Queue.{take_record}
use mp_logger.Queue.Invariant.{take_record_lem}
use mp_logger.Render.Number.{Printer}
use mp_logger.Worker.{Callback}
use mp_logger.Worker.Loop.{
  Pc, waiting, checked, blocked, holding, sending, counting, leaving, ended, Worker, Turn, step_at,
}

-- A worker behind the loop has left nothing in the queue.
abbrev pub HasDrained : Pc → Logger → Type 0
HasDrained leaving l = l.queue_count ≡ 0
HasDrained ended l = l.queue_count ≡ 0
HasDrained _ l = Unit

-- The worker is not in a wait: nothing keeps it from going on while the flag is set.
abbrev pub IsAwake : Pc → Type 0
IsAwake checked = ⊥
IsAwake blocked = ⊥
IsAwake _ = Unit

-- The pieces of work that are left when no record comes any more: four for each record.
abbrev pub pieces_left : Pc → Logger → ℕ
pieces_left waiting l = 4 * l.queue_count + 2
pieces_left checked l = 0
pieces_left blocked l = 0
pieces_left (holding r) l = 4 * l.queue_count + 5
pieces_left (sending r) l = 4 * l.queue_count + 4
pieces_left (counting r) l = 4 * l.queue_count + 3
pieces_left leaving l = 1
pieces_left ended l = 0

pub take_record-none : (l : Logger) → take_record l ≡ none → l.queue_count ≡ 0
unfolding take_record
take_record-none l e = ground arith

pub take_record-empty : (l : Logger) → l.queue_count ≡ 0 → take_record l ≡ none
unfolding take_record
take_record-empty l e = ground (arith, e)

module _ (printer : Printer) (callback : Callback) where
  -- A worker that has returned does nothing.
  pub ended-stops :
      {pc : Pc} (w : Worker) (l : Logger) {turn : Turn}
      → pc ≡ ended
      → step_at printer callback pc w l ≢ some turn
  unfolding step_at
  ended-stops w l e h =
      absurd (cc (sym h ∙ subst (λ pc. step_at printer callback pc w l ≡ none) (sym e) refl))

  -- A piece of work while the flag is set.
  pub record IsProgress (pc : Pc) (w : Worker) (l : Logger) (turn : Turn) : Type 0 where
    pub steps : step_at printer callback pc w l ≡ some turn
    pub closed : turn.logger.shutdown_requested ≡ true
    pub awake : IsAwake turn.worker.pc
    pub drained : HasDrained turn.worker.pc turn.logger
    pub fewer : suc (pieces_left turn.worker.pc turn.logger) ≡ pieces_left pc l

  taken-IsProgress :
      (w : Worker) (l : Logger) {r : Record} {l' : Logger}
      → l.shutdown_requested ≡ true
      → take_record l ≡ some (r, l')
      → IsProgress waiting w l
          (record { worker = record w { pc = holding r }; logger = l'; writes = []; notices = [] })
  unfolding step_at
  taken-IsProgress w l closed taken =
      let (positive, _, after) = take_record_lem l taken in
      record {
        steps = ground (arith, taken);
        closed = ap (λ m. m.shutdown_requested) after ∙ closed;
        awake = tt;
        drained = tt;
        fewer = ap (λ m. suc (4 * m.queue_count + 5)) after ∙ omega (arith, positive);
      }

  leaves-IsProgress :
      (w : Worker) (l : Logger)
      → l.shutdown_requested ≡ true
      → take_record l ≡ none
      → IsProgress waiting w l
          (record { worker = record w { pc = leaving }; logger = l; writes = []; notices = [] })
  unfolding step_at
  leaves-IsProgress w l closed empty = record {
    steps = ground (arith, empty, closed);
    closed = closed;
    awake = tt;
    drained = take_record-none l empty;
    fewer = omega (arith, take_record-none l empty);
  }

  -- Until it has returned, a worker that is awake goes on.
  pub progress :
      (pc : Pc) (w : Worker) (l : Logger)
      → IsAwake pc
      → l.shutdown_requested ≡ true
      → HasDrained pc l
      → (pc ≡ ended) ⊎ ((turn : Turn) × IsProgress pc w l turn)
  unfolding step_at
  progress waiting w l awake closed drained = elim (Option-cases (take_record l)) [
    | inl empty ↦ inr (_, leaves-IsProgress w l closed empty)
    | inr ((r, l'), taken) ↦ inr (_, taken-IsProgress w l closed taken)
  ]
  progress (holding r) w l awake closed drained =
      inr
        (_, record { steps = refl; closed = closed; awake = tt; drained = tt; fewer = omega arith })
  progress (sending r) w l awake closed drained =
      inr
        (_, record { steps = refl; closed = closed; awake = tt; drained = tt; fewer = omega arith })
  progress (counting r) w l awake closed drained =
      inr
        (_, record { steps = refl; closed = closed; awake = tt; drained = tt; fewer = omega arith })
  progress checked w l awake closed drained = absurd awake
  progress blocked w l awake closed drained = absurd awake
  progress leaving w l awake closed drained =
      inr (_, record { steps = refl; closed = closed; awake = tt; drained = drained; fewer = refl })
  progress ended w l awake closed drained = inl refl
