-- ===== src/System/Work.antt =====
-- The worker's pieces keep the invariant.
use mathlib.Core.Path.{subst}
use mp_logger.Common.{
  List, ◌∷◌, append-nil, ℕ, ◌+◌, ◌-◌, ◌%◌, ◌≤◌, ◌≡◌, refl, sym, ap, ◌∙◌, inl, inr, [], ◌++◌,
  append_assoc, none, some, arith, Option-cases, add_size, size_mod, length, length-append,
}
use mp_logger.Logger.{Record, Logger}
use mp_logger.Queue.{take_record}
use mp_logger.Queue.Invariant.{IsValid, take_record-IsValid, take_record_lem}
use mp_logger.Queue.Refine.{contents, take_record_refines}
use mp_logger.Render.Number.{Printer}
use mp_logger.Worker.{Callback}
use mp_logger.Worker.Loop.{
  Pc, waiting, checked, blocked, holding, sending, counting, leaving, ended, Worker, Turn, step_at,
  worker_step,
}
use mp_logger.System.{System, Entry, worked}
use mp_logger.System.Delivered.{Hands, HasDelivered, quiet, hands, deliver-Hands}
use mp_logger.System.Frame.{HasSameCapacities, HasRoom-capacities}
use mp_logger.System.Invariant.{IsSound, IsAdmitted-capacities, in_hand, uncounted}

-- What holds of the one answer of a piece holds of any.
pub of_some : (P : Turn → Type 0) {x turn : Turn} → some x ≡ some turn → P x → P turn
of_some P e p = subst P (cc) p

-- The record that a piece hands to the streams.
abbrev handed : Pc → List Record
handed (sending r) = r ∷ []
handed _ = []

module _ (printer : Printer) (callback : Callback) where
  abbrev AreHanded : List Record → Entry → Type 0
  AreHanded [] entry = entry.writes ≡ []
  AreHanded (r ∷ []) entry = Hands printer r entry
  AreHanded _ entry = ⊥

  HasDelivered-handed :
      {records : List Record} {journal : List Entry} (pc : Pc) (entry : Entry)
      → HasDelivered printer records journal
      → AreHanded (handed pc) entry
      → HasDelivered printer (records ++ handed pc) (journal ++ (entry ∷ []))
  HasDelivered-handed (sending r) entry h a = hands r entry h a
  HasDelivered-handed {records} {journal} _ entry h a =
      subst (λ more. HasDelivered printer more (journal ++ (entry ∷ []))) (sym (append-nil records))
        (quiet entry h a)

  -- What a piece does to the logger and to what the worker has in hand.
  record IsTurn (pc : Pc) (l : Logger) (turn : Turn) : Type 0 where
    valid : IsValid turn.logger
    capacities : HasSameCapacities l.config turn.logger.config
    same_queued : turn.logger.queued_records_total ≡ l.queued_records_total
    written : AreHanded (handed pc) (record { found = l; writes = turn.writes })
    moved : in_hand pc ++ contents l ≡ handed pc ++ (in_hand turn.worker.pc ++ contents turn.logger)
    processed :
        (n : ℕ)
        → uncounted pc ≤ n
        → l.processed_records_total ≡ (n - uncounted pc) % size_mod
        → (uncounted turn.worker.pc ≤ n + length (handed pc))
          × (turn.logger.processed_records_total
              ≡ (n + length (handed pc) - uncounted turn.worker.pc) % size_mod)

  -- A piece that leaves the logger as it was.
  still-IsTurn :
      (pc : Pc) (l : Logger) (turn : Turn)
      → IsValid l
      → AreHanded (handed pc) (record { found = l; writes = turn.writes })
      → turn.logger ≡ l
      → in_hand pc ≡ handed pc ++ in_hand turn.worker.pc
      → uncounted pc ≡ 0
      → uncounted turn.worker.pc ≡ length (handed pc)
      → IsTurn pc l turn
  still-IsTurn pc l turn v written same hand before now = record {
    valid = subst IsValid (sym same) v;
    capacities = ground arith;
    same_queued = ap (λ m. m.queued_records_total) same;
    written = written;
    moved =
        ap (λ records. records ++ contents l) hand
        ∙ append_assoc (handed pc) (in_hand turn.worker.pc) (contents l)
        ∙ ap (λ m. handed pc ++ (in_hand turn.worker.pc ++ contents m)) (sym same);
    processed = λ n h e. (
      omega arith,
      ap (λ m. m.processed_records_total) same ∙ e ∙ ap (λ k. k % size_mod) (omega arith),
    );
  }

  counted-IsTurn :
      (r : Record) (w : Worker) (l : Logger)
      → IsValid l
      → IsTurn (counting r) l (record {
        worker = record w { pc = waiting };
        logger = record l { processed_records_total = add_size l.processed_records_total 1 };
        writes = [];
        notices = [];
      })
  counted-IsTurn r w l v = record {
    valid = ground arith;
    capacities = ground arith;
    same_queued = refl;
    written = refl;
    moved = refl;
    processed = λ n h e. omega arith;
  }

  taken-IsTurn :
      (r : Record) (w : Worker) (l l' : Logger)
      → IsValid l
      → take_record l ≡ some (r, l')
      → IsTurn waiting l
          (record { worker = record w { pc = holding r }; logger = l'; writes = []; notices = [] })
  taken-IsTurn r w l l' v taken =
      let after = (take_record_lem l taken).2 in
      record {
        valid = take_record-IsValid l v taken;
        capacities = ground arith;
        same_queued = ap (λ m. m.queued_records_total) after;
        written = refl;
        moved = take_record_refines l v taken;
        processed = λ n h e. (
          omega arith,
          ap (λ m. m.processed_records_total) after ∙ e ∙ ap (λ k. k % size_mod) (omega arith),
        );
      }

  run_taken :
      (w : Worker) (l : Logger) {r : Record} {l' : Logger}
      → take_record l ≡ some (r, l')
      → step_at printer callback waiting w l
        ≡ some (record {
          worker = record w { pc = holding r };
          logger = l';
          writes = [];
          notices = [];
        })
  unfolding step_at
  run_taken w l taken = ground (arith, taken)

  waits-IsTurn :
      (w : Worker) (l : Logger) {turn : Turn}
      → IsValid l
      → take_record l ≡ none
      → step_at printer callback waiting w l ≡ some turn
      → IsTurn waiting l turn
  unfolding step_at
  waits-IsTurn w l {turn} v empty e =
      still-IsTurn waiting l turn v (ground (arith, empty)) (ground (arith, empty))
        (ground (arith, empty)) refl (ground (arith, empty))

  step_at-IsTurn :
      (pc : Pc) (w : Worker) (l : Logger) {turn : Turn}
      → IsValid l
      → step_at printer callback pc w l ≡ some turn
      → IsTurn pc l turn
  unfolding step_at
  step_at-IsTurn waiting w l v e = elim (Option-cases (take_record l)) [
    | inl empty ↦ waits-IsTurn w l v empty e
    | inr ((r, l'), taken) ↦
        of_some (IsTurn waiting l) (sym (run_taken w l taken) ∙ e) (taken-IsTurn r w l l' v taken)
  ]
  step_at-IsTurn (holding r) w l v e =
      of_some (IsTurn (holding r) l) e (still-IsTurn (holding r) l _ v refl refl refl refl refl)
  step_at-IsTurn (sending r) w l v e = of_some (IsTurn (sending r) l) e (
      still-IsTurn (sending r) l _ v (deliver-Hands printer callback l w.render_buffer r) refl refl
        refl refl)
  step_at-IsTurn (counting r) w l v e = of_some (IsTurn (counting r) l) e (counted-IsTurn r w l v)
  step_at-IsTurn leaving w l v e =
      of_some (IsTurn leaving l) e (still-IsTurn leaving l _ v refl refl refl refl refl)
  step_at-IsTurn checked w l v e =
      of_some (IsTurn checked l) e (still-IsTurn checked l _ v refl refl refl refl refl)
  step_at-IsTurn blocked w l v e = cc
  step_at-IsTurn ended w l v e = cc

  -- The invariant after a piece of the worker.
  pub work-IsSound :
      (s : System) (turn : Turn)
      → worker_step printer callback s.worker s.logger ≡ some turn
      → IsSound printer s
      → IsSound printer (worked s turn)
  unfolding worker_step
  work-IsSound s turn e v =
      let h = step_at-IsTurn s.worker.pc s.worker s.logger v.valid e in
      let size = length-append v.delivered (handed s.worker.pc) in
      let (below, total) = h.processed (length v.delivered) v.counted v.processed in
      record {
        valid = h.valid;
        room = HasRoom-capacities s.logger.config turn.logger.config h.capacities v.room;
        admitted = λ i.
            IsAdmitted-capacities s.logger turn.logger (s.producers i) h.capacities (v.admitted i);
        delivered = v.delivered ++ handed s.worker.pc;
        written = HasDelivered-handed s.worker.pc _ v.written h.written;
        fifo =
            v.fifo
            ∙ ap (λ records. v.delivered ++ records) h.moved
            ∙ sym (
                append_assoc v.delivered (handed s.worker.pc)
                  (in_hand turn.worker.pc ++ contents turn.logger));
        queued = h.same_queued ∙ v.queued;
        counted = omega arith;
        processed = total ∙ ap (λ k. (k - uncounted turn.worker.pc) % size_mod) (sym size);
      }
