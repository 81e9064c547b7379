-- ===== src/System/Delivered.antt =====
-- What it means that records have been handed to the streams, in terms of the calls of `write`.
use mp_logger.Common.{
  ℕ, ◌≡◌, refl, ap, ◌∙◌, inl, inr, ◌&&◌, List, [], ◌∷◌, ◌++◌, append-nil, Bytes, leb, if◌then◌else◌,
  Bool-cases,
}
use mp_logger.Logger.{Record, Stream, Logger}
use mp_logger.Streams.{level_in_range}
use mp_logger.Render.Number.{Printer}
use mp_logger.Render.Entry.{render_record}
use mp_logger.Worker.{Write, Callback, dispatch, deliver}
use mp_logger.System.{Entry}

-- One call for each stream whose bounds have the record's level, in the order of the table.
abbrev pub calls_of : List Stream → Record → Bytes → ℕ → List Write
calls_of [] r text n = []
calls_of (s ∷ streams) r text n =
    let rest = calls_of streams r text n in
    let call : Write = record {
      stream_context = s.stream_context;
      written = r;
      text = text;
      text_length = n;
    } in
    if leb s.minimum_level r.level && leb r.level s.maximum_level then call ∷ rest else rest

module _ (printer : Printer) where
  -- All the streams of the table that the piece found got the record, rendered with the configuration
  -- that it found.
  pub record Hands (r : Record) (entry : Entry) : Type 0 where
    pub buffer : Bytes
    pub calls :
        let rendered =
          render_record printer entry.found.render_capacity entry.found.config r buffer in
        entry.writes ≡ calls_of entry.found.streams r rendered.0 rendered.1

  -- The pieces have handed these records to the streams, in this order and each once, and have made no
  -- other call.
  pub data HasDelivered : List Record → List Entry → Type 0 where
    nothing : HasDelivered [] []
    quiet :
        {records : List Record} {journal : List Entry} (entry : Entry)
        → HasDelivered records journal
        → entry.writes ≡ []
        → HasDelivered records (journal ++ (entry ∷ []))
    hands :
        {records : List Record} {journal : List Entry} (r : Record) (entry : Entry)
        → HasDelivered records journal
        → Hands r entry
        → HasDelivered (records ++ (r ∷ [])) (journal ++ (entry ∷ []))

-- All calls of a journal.
abbrev pub all_writes : List Entry → List Write
all_writes [] = []
all_writes (entry ∷ journal) = entry.writes ++ all_writes journal

pub all_writes-quiet :
    (journal : List Entry) (entry : Entry)
    → entry.writes ≡ []
    → all_writes (journal ++ (entry ∷ [])) ≡ all_writes journal
all_writes-quiet [] entry e = append-nil entry.writes ∙ e
all_writes-quiet (first ∷ journal) entry e =
    ap (λ later. first.writes ++ later) (all_writes-quiet journal entry e)

dispatch-calls :
    (callback : Callback) (streams : List Stream) (r : Record) (text : Bytes) (n : ℕ)
    → (dispatch callback streams r text n).0 ≡ calls_of streams r text n
unfolding dispatch level_in_range
dispatch-calls callback [] r text n = refl
dispatch-calls callback (s ∷ streams) r text n =
    let call : Write = record {
      stream_context = s.stream_context;
      written = r;
      text = text;
      text_length = n;
    } in
    elim (Bool-cases (leb s.minimum_level r.level && leb r.level s.maximum_level)) [
      | inl e ↦ rw e (ap (λ later. call ∷ later) (dispatch-calls callback streams r text n))
      | inr e ↦ rw e (dispatch-calls callback streams r text n)
    ]

pub deliver-Hands :
    (printer : Printer) (callback : Callback) (l : Logger) (buffer : Bytes) (r : Record)
    → Hands printer r (record { found = l; writes = (deliver printer callback l buffer r).writes })
unfolding deliver
deliver-Hands printer callback l buffer r = record {
  buffer = buffer;
  calls = dispatch-calls callback l.streams r _ _;
}
