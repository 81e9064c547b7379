-- ===== src/System/Idle.antt =====
-- The worker of src/mp_logger.c at an empty queue, left to itself while the logger is open.
use mathlib.Core.Path.{subst}
use mp_logger.Common.{
  ℕ, zero, suc, ◌-◌, ◌%◌, ◌≡◌, ◌⊎◌, refl, sym, ap, ◌∙◌, inl, inr, false, [], none, some, arith,
  length, size_mod,
}
use mp_logger.Logger.{Logger}
use mp_logger.Render.Number.{Printer}
use mp_logger.Worker.{Callback}
use mp_logger.Worker.Loop.{
  Pc, waiting, checked, blocked, holding, sending, counting, leaving, ended, Worker, Turn, step_at,
  worker_step,
}
use mp_logger.System.{System, worked}
use mp_logger.System.Invariant.{IsSound, in_hand, uncounted}
use mp_logger.System.Work.{work-IsSound}
use mp_logger.System.Reachable.{accepted-delivered, accepted-HasDelivered}
use mp_logger.System.Delivered.{HasDelivered}
use mp_logger.System.Drain.{take_record-empty}
use mp_logger.System.Liveness.{run_worker, run_worker-stuck, run_worker-some}

-- The worker is before a wait or in it.
abbrev pub IsAtWait : Pc → Type 0
IsAtWait waiting = Unit
IsAtWait checked = Unit
IsAtWait blocked = Unit
IsAtWait _ = ⊥

IsAtWait-hand : (pc : Pc) → IsAtWait pc → (in_hand pc ≡ []) × (uncounted pc ≡ 0)
IsAtWait-hand pc h = ground (arith, h)

module _ (printer : Printer) where
  pub record HasCaughtUp (s t : System) : Type 0 where
    pub delivered : HasDelivered printer s.accepted t.journal
    pub processed : t.logger.processed_records_total ≡ s.logger.queued_records_total

  -- The worker is before a wait or in it, and there is nothing to do.
  pub record IsIdle (s : System) : Type 0 where
    pub sound : IsSound printer s
    pub at_wait : IsAtWait s.worker.pc
    pub empty : s.logger.queue_count ≡ 0
    pub running : s.logger.shutdown_requested ≡ false

  pub waiting-IsIdle :
      (s : System)
      → IsSound printer s
      → s.worker.pc ≡ waiting
      → s.logger.queue_count ≡ 0
      → s.logger.shutdown_requested ≡ false
      → IsIdle s
  waiting-IsIdle s v e empty running = record {
    sound = v;
    at_wait = subst IsAtWait (sym e) tt;
    empty = empty;
    running = running;
  }

  idle-HasCaughtUp : (s : System) → IsIdle s → HasCaughtUp s s
  idle-HasCaughtUp s h =
      let v = h.sound in
      let (hand, none_uncounted) = IsAtWait-hand s.worker.pc h.at_wait in
      let all = accepted-delivered printer s v hand h.empty in
      record {
        delivered = accepted-HasDelivered printer s v hand h.empty;
        processed =
            v.processed
            ∙ ap (λ n. (length v.delivered - n) % size_mod) none_uncounted
            ∙ omega (arith, ap length all, v.queued);
      }

module _ (printer : Printer) (callback : Callback) where
  -- Where nothing is to do, the worker alone delivers and counts nothing more.
  idle-cases :
      (pc : Pc) (w : Worker) (l : Logger)
      → IsAtWait pc
      → l.queue_count ≡ 0
      → l.shutdown_requested ≡ false
      → (step_at printer callback pc w l ≡ none)
        ⊎ ((turn : Turn) × (step_at printer callback pc w l ≡ some turn)
            × IsAtWait turn.worker.pc
            × (turn.logger ≡ l))
  unfolding step_at
  idle-cases waiting w l h empty running = inr (
    record { worker = record w { pc = checked }; logger = l; writes = []; notices = [] },
    ground (arith, take_record-empty l empty, running),
    tt,
    refl,
  )
  idle-cases checked w l h empty running = inr (_, refl, tt, refl)
  idle-cases blocked w l h empty running = inl refl
  idle-cases (holding r) w l h empty running = absurd h
  idle-cases (sending r) w l h empty running = absurd h
  idle-cases (counting r) w l h empty running = absurd h
  idle-cases leaving w l h empty running = absurd h
  idle-cases ended w l h empty running = absurd h

  pub run_worker-idle :
      (n : ℕ) (s : System)
      → IsIdle printer s
      → HasCaughtUp printer s (run_worker printer callback n s)
  unfolding run_worker worker_step
  run_worker-idle zero s h = idle-HasCaughtUp printer s h
  run_worker-idle (suc n) s h =
      elim (idle-cases s.worker.pc s.worker s.logger h.at_wait h.empty h.running) [
        | inl stuck ↦
            subst (HasCaughtUp printer s) (sym (run_worker-stuck printer callback n s stuck))
              (idle-HasCaughtUp printer s h)
        | inr (turn, e, at_wait, same) ↦
            let rest = run_worker-idle n (worked s turn) (record {
              sound = work-IsSound printer callback s turn e h.sound;
              at_wait = at_wait;
              empty = ap (λ l. l.queue_count) same ∙ h.empty;
              running = ap (λ l. l.shutdown_requested) same ∙ h.running;
            }) in
            subst (HasCaughtUp printer s) (sym (run_worker-some printer callback n s e)) (record {
              delivered = rest.delivered;
              processed = rest.processed ∙ ap (λ l. l.queued_records_total) same;
            })
      ]
