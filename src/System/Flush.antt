-- ===== src/System/Flush.antt =====
-- What a successful `mp_logger_flush` means.
use mathlib.Core.Path.{subst}
use mp_logger.Common.{
  none, map, drop, take-append-drop, ℕ, ◌+◌, ◌≤◌, ◌<◌, ◌≡◌, refl, sym, ap, ◌∙◌, inl, inr, true,
  List, [], ◌∷◌, ◌++◌, append-nil, append_assoc, some, arith, Bool-cases, ltb, size_mod, length,
  length-append, take, take-append, take-append_le, All,
}
use mp_logger.Status.{status_ok}
use mp_logger.Logger.{Record, Logger}
use mp_logger.Queue.Refine.{contents}
use mp_logger.Render.Number.{Printer}
use mp_logger.Worker.{Callback}
use mp_logger.Lifecycle.{Poll, wait_processed, flush}
use mp_logger.System.{System, Move, commit, move, starts, Reach, at_start, after, initial}
use mp_logger.System.Delivered.{HasDelivered}
use mp_logger.System.Invariant.{in_hand}
use mp_logger.System.Reachable.{Reach-IsSound, IsFresh, initial-IsSound}

-- What a round of the wait reads: the counter in that state, and the clock.
abbrev pub read : System × ℕ → Poll
read (s, time) = record { processed = s.logger.processed_records_total; time = time }

All-middle :
    {A : Type 0} (P : A → Type 0) (before : List A) (a : A) (later : List A)
    → All P (before ++ (a ∷ later))
    → P a
All-middle P [] a later (h, rest) = h
All-middle P (first ∷ before) a later (h, rest) = All-middle P before a later rest

module _ (printer : Printer) (callback : Callback) where
  -- The history only grows.
  Move-accepted :
      {s t : System}
      → Move printer callback s t
      → (more : List Record) × (t.accepted ≡ s.accepted ++ more)
  Move-accepted (commit i acquired now call message at free) = (_, refl)
  Move-accepted {s} _ = ([], sym (append-nil s.accepted))

  Reach-accepted :
      {s t : System}
      → Reach printer callback s t
      → (more : List Record) × (t.accepted ≡ s.accepted ++ more)
  Reach-accepted {s} at_start = ([], sym (append-nil s.accepted))
  Reach-accepted {s} (after r (move m)) =
      let (more, e) = Reach-accepted r in
      let (last, e') = Move-accepted m in
      (more ++ last, e' ∙ ap (λ records. records ++ last) e ∙ append_assoc s.accepted more last)
  Reach-accepted (after r (starts spawned allocated e stopped)) = Reach-accepted r

  -- A wait that ends well has read enough in one of its rounds, and had not ended before it.
  wait_processed_ok :
      (target timeout_millis deadline_millis : ℕ) (rounds : List (System × ℕ))
      → wait_processed target timeout_millis deadline_millis (map read rounds) ≡ some status_ok
      → (before : List (System × ℕ)) × (u : System × ℕ) × (later : List (System × ℕ)) × (rounds
          ≡ before ++ (u ∷ later))
        × (wait_processed target timeout_millis deadline_millis (map read before) ≡ none)
        × (target ≤ u.0.logger.processed_records_total)
  unfolding wait_processed
  wait_processed_ok target timeout_millis deadline_millis [] e = cc
  wait_processed_ok target timeout_millis deadline_millis (u ∷ rounds) e =
      elim (Bool-cases (ltb u.0.logger.processed_records_total target)) [
        | inl early ↦
            let (before, v, later, parts, waiting_, enough) =
              wait_processed_ok target timeout_millis deadline_millis rounds
                (ground (arith, e, early)) in
            (u ∷ before, v, later, ap (◌∷◌ u) parts, ground (arith, e, early, waiting_), enough)
        | inr enough ↦ ([], u, rounds, refl, refl, ground (arith, enough))
      ]

  -- A state in which that many are counted has delivered all that had been accepted.
  delivered_lem :
      (l : Logger) {s u : System}
      → IsFresh l
      → Reach printer callback (initial l) s
      → Reach printer callback s u
      → length u.accepted < size_mod
      → s.logger.queued_records_total ≤ u.logger.processed_records_total
      → (more : List Record) × HasDelivered printer (s.accepted ++ more) u.journal
  delivered_lem l {s} {u} f r r' small enough =
      let v = Reach-IsSound printer callback (initial-IsSound printer l f) r in
      let w = Reach-IsSound printer callback v r' in
      let (more, e) = Reach-accepted r' in
      let rest = in_hand u.worker.pc ++ contents u.logger in
      let n = length s.accepted in
      let queued = v.queued in
      let processed = w.processed in
      let counted = w.counted in
      let size = ap length e ∙ length-append s.accepted more in
      let size' = ap length w.fifo ∙ length-append w.delivered rest in
      let front : take n w.delivered ≡ s.accepted =
        sym (take-append_le n w.delivered rest (omega arith))
        ∙ ap (take n) (sym w.fifo ∙ e)
        ∙ take-append n s.accepted more refl in
      let all : w.delivered ≡ s.accepted ++ drop n w.delivered =
        sym (take-append-drop n w.delivered) ∙ ap (λ first. first ++ drop n w.delivered) front in
      (drop n w.delivered, subst (λ records. HasDelivered printer records u.journal) all w.written)

  -- A flush that answers OK while the worker runs returns only after every record that had been
  -- accepted when it was called was handed to the streams: its rounds are some in which it goes on
  -- waiting, then one that reads the state in which it returns, then others; and in that state the
  -- records handed to the streams are the accepted ones of the call, in their order, then perhaps
  -- more. They are handed over by calls of `write`, one for every stream of the table of the moment
  -- whose bounds have the record's level, and there is no other call. The logger was fresh at the
  -- start, every round reads the counter of processed records in a state that is reachable from the
  -- one of the call, and in those states fewer than 2^64 records have been accepted.
  pub flush_lem :
      (l : Logger) {s : System} (timeout_millis now : ℕ) (rounds : List (System × ℕ))
      → IsFresh l
      → Reach printer callback (initial l) s
      → s.logger.worker_started ≡ true
      → All (λ u. Reach printer callback s u.0 × (length u.0.accepted < size_mod)) rounds
      → flush s.logger timeout_millis now (map read rounds) ≡ some status_ok
      → (before : List (System × ℕ)) × (u : System × ℕ) × (later : List (System × ℕ)) × (rounds
          ≡ before ++ (u ∷ later))
        × (flush s.logger timeout_millis now (map read before) ≡ none)
        × ((more : List Record) × HasDelivered printer (s.accepted ++ more) u.0.journal)
  unfolding flush
  flush_lem l {s} timeout_millis now rounds f r started observed e =
      let (before, u, later, parts, waiting_, enough) =
        wait_processed_ok s.logger.queued_records_total timeout_millis (now + timeout_millis) rounds
          (ground (arith, e, started)) in
      let (reached, small) =
        All-middle (λ u. Reach printer callback s u.0 × (length u.0.accepted < size_mod)) before u
          later (subst (All _) parts observed) in
      (
        before,
        u,
        later,
        parts,
        ground (arith, started, waiting_),
        delivered_lem l f r reached small enough,
      )
