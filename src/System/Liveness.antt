-- ===== src/System/Liveness.antt =====
-- The worker left to itself after `mp_logger_shutdown` has set its flag.
use mathlib.Core.Path.{subst}
use mp_logger.Common.{
  ℕ, zero, suc, ◌+◌, ◌*◌, ◌≤◌, ◌≡◌, refl, ap, inl, inr, true, none, some, Option-cases, arith,
}
use mp_logger.Logger.{Logger}
use mp_logger.Render.Number.{Printer}
use mp_logger.Worker.{Callback}
use mp_logger.Worker.Loop.{Pc, ended, Turn, step_at, worker_step}
use mp_logger.System.{System, worked, Moves, here, later, work}
use mp_logger.System.Invariant.{IsSound, in_hand}
use mp_logger.System.Work.{work-IsSound}
use mp_logger.System.Reachable.{accepted-HasDelivered}
use mp_logger.System.Delivered.{HasDelivered}
use mp_logger.System.Drain.{IsAwake, HasDrained, pieces_left, progress}

-- The worker's pieces alone, up to that many, from a system on.
unfoldable pub run_worker : Printer → Callback → ℕ → System → System
run_worker printer callback zero s = s
run_worker printer callback (suc n) s = elim (worker_step printer callback s.worker s.logger) [
  | none ↦ s
  | some turn ↦ run_worker printer callback n (worked s turn)
]

-- A worker that has returned, with nothing left behind.
pub record IsDone (printer : Printer) (s t : System) : Type 0 where
  pub returned : t.worker.pc ≡ ended
  pub empty : t.logger.queue_count ≡ 0
  pub same_accepted : t.accepted ≡ s.accepted
  pub all_delivered : HasDelivered printer s.accepted t.journal

ended-drained : {pc : Pc} (l : Logger) → pc ≡ ended → HasDrained pc l → l.queue_count ≡ 0
ended-drained l e h = subst (λ pc. HasDrained pc l) e h

-- A sound system whose worker has returned with an empty queue has delivered everything.
pub sound-IsDone :
    (printer : Printer) (s : System)
    → IsSound printer s
    → s.worker.pc ≡ ended
    → HasDrained s.worker.pc s.logger
    → IsDone printer s s
sound-IsDone printer s v e h =
    let empty = ended-drained s.logger e h in
    record {
      returned = e;
      empty = empty;
      same_accepted = refl;
      all_delivered = accepted-HasDelivered printer s v (ap in_hand e) empty;
    }

pieces_left_bound : (pc : Pc) (l : Logger) → pieces_left pc l ≤ 4 * l.queue_count + 5
pieces_left_bound pc l = ground arith

module _ (printer : Printer) (callback : Callback) where
  run_worker-none : (n : ℕ) (s : System) → s.worker.pc ≡ ended → run_worker printer callback n s ≡ s
  unfolding run_worker worker_step step_at
  run_worker-none zero s e = refl
  run_worker-none (suc n) s e = rw e refl

  pub run_worker-some :
      (n : ℕ) (s : System) {turn : Turn}
      → worker_step printer callback s.worker s.logger ≡ some turn
      → run_worker printer callback (suc n) s ≡ run_worker printer callback n (worked s turn)
  unfolding run_worker
  run_worker-some n s e = rw (run_worker, e) refl

  -- A worker whose loop has not left a record behind, in a system where no one else moves.
  run_worker-IsDone_from :
      (n : ℕ) (s : System)
      → IsSound printer s
      → s.logger.shutdown_requested ≡ true
      → IsAwake s.worker.pc
      → HasDrained s.worker.pc s.logger
      → pieces_left s.worker.pc s.logger ≤ n
      → IsDone printer s (run_worker printer callback n s)
  unfolding worker_step
  run_worker-IsDone_from zero s v closed awake drained enough =
      elim (progress printer callback s.worker.pc s.worker s.logger awake closed drained) [
        | inl e ↦ rw (run_worker-none zero s e) (sound-IsDone printer s v e drained)
        | inr (turn, p) ↦ absurd (omega (arith, p.fewer))
      ]
  run_worker-IsDone_from (suc n) s v closed awake drained enough =
      elim (progress printer callback s.worker.pc s.worker s.logger awake closed drained) [
        | inl e ↦ rw (run_worker-none (suc n) s e) (sound-IsDone printer s v e drained)
        | inr (turn, p) ↦
            let rest =
              run_worker-IsDone_from n (worked s turn)
                (work-IsSound printer callback s turn p.steps v) p.closed p.awake p.drained
                (omega (arith, p.fewer)) in
            rw (run_worker-some n s p.steps) (record {
              returned = rest.returned;
              empty = rest.empty;
              same_accepted = rest.same_accepted;
              all_delivered = rest.all_delivered;
            })
      ]

  pub run_worker-stuck :
      (n : ℕ) (s : System)
      → worker_step printer callback s.worker s.logger ≡ none
      → run_worker printer callback (suc n) s ≡ s
  unfolding run_worker
  run_worker-stuck n s e = rw (run_worker, e) refl

  Moves-append :
      {s t u : System}
      → Moves printer callback s t
      → Moves printer callback t u
      → Moves printer callback s u
  Moves-append h here = h
  Moves-append h (later moves m) = later (Moves-append h moves) m

  -- What the worker does alone are moves of the system.
  pub run_worker-Moves :
      (n : ℕ) (s : System) → Moves printer callback s (run_worker printer callback n s)
  unfolding run_worker
  run_worker-Moves zero s = here
  run_worker-Moves (suc n) s =
      elim (Option-cases (worker_step printer callback s.worker s.logger)) [
        | inl e ↦ rw (run_worker-stuck n s e) here
        | inr (turn, e) ↦
            rw (run_worker-some n s e)
              (Moves-append (later here (work turn e)) (run_worker-Moves n (worked s turn)))
      ]

  -- The worker left to itself drains the queue and returns: after at most 4 pieces for each queued
  -- record and 5 more, which are moves of the system, it has returned, the queue is empty, and the
  -- records that were accepted have all been handed to the streams, in their order. The system is
  -- sound, `shutdown_requested` is set, the worker has not returned or left its loop with records in
  -- the queue, it is not in a wait for a signal, neither blocked nor between the test of the wait and
  -- the wait itself, and no other thread moves.
  pub run_worker-IsDone :
      (s : System)
      → IsSound printer s
      → s.logger.shutdown_requested ≡ true
      → IsAwake s.worker.pc
      → HasDrained s.worker.pc s.logger
      → let t = run_worker printer callback (4 * s.logger.queue_count + 5) s in
        Moves printer callback s t × IsDone printer s t
  run_worker-IsDone s v closed awake drained = (
    run_worker-Moves (4 * s.logger.queue_count + 5) s,
    run_worker-IsDone_from (4 * s.logger.queue_count + 5) s v closed awake drained
        (pieces_left_bound s.worker.pc s.logger),
  )
