-- ===== src/Worker/Deliver.antt =====
-- Which streams a record reaches, and with which text.
use mp_logger.Common.{
  ℕ, suc, ◌≤◌, ◌<◌, ◌≡◌, ◌↔◌, ap, ◌∙◌, inl, inr, true, false, List, [], ◌∷◌, arith, Bytes, some,
  Bool-cases, size_mod, length, take, All,
}
use mp_logger.Text.{c_string}
use mp_logger.Status.{level_fatal}
use mp_logger.Logger.{Record, Stream, Logger}
use mp_logger.Streams.{level_in_range, is_level_enabled}
use mp_logger.Streams.Mask.{accepts}
use mp_logger.Streams.Coherence.{IsCoherent}
use mp_logger.Streams.Configure.{is_level_enabled_iff}
use mp_logger.Render.Number.{Printer}
use mp_logger.Render.Entry.{render_record}
use mp_logger.Render.Reference.{entry_text}
use mp_logger.Render.Result.{render_record_lem}
use mp_logger.Worker.{Write, Callback, dispatch, deliver}

dispatch-accepts :
    (callback : Callback) (streams : List Stream) (r : Record) (text : Bytes) (n : ℕ)
    → (accepts streams r.level ≡ true) ↔ (0 < length (dispatch callback streams r text n).0)
unfolding dispatch
dispatch-accepts callback [] r text n = ground arith
dispatch-accepts callback (s ∷ streams) r text n =
    ground (arith, dispatch-accepts callback streams r text n)

-- In a coherent logger that is not shut down, a level up to FATAL is reported enabled exactly if a
-- record of that level is written to some stream.
pub deliver_iff :
    (printer : Printer) (callback : Callback) (l : Logger) (buffer : Bytes) (r : Record)
    → IsCoherent l
    → l.shutdown_requested ≡ false
    → r.level ≤ level_fatal
    → (is_level_enabled (some l) r.level ≡ true)
      ↔ (0 < length (deliver printer callback l buffer r).writes)
unfolding deliver
deliver_iff printer callback l buffer r c open_ h =
    let rendered = render_record printer l.render_capacity l.config r buffer in
    let enabled = is_level_enabled_iff l r.level c in
    let written = dispatch-accepts callback l.streams r rendered.0 rendered.1 in
    (λ e. written.0 (enabled.0 e).2, λ e. enabled.1 (open_, h, written.1 e))

-- A call of a callback with this text.
abbrev pub Shows : Bytes → Write → Type 0
Shows shown w = (c_string w.text ≡ shown) × (w.text_length ≡ length shown)

dispatch-All :
    (callback : Callback) (streams : List Stream) (r : Record) (text : Bytes) (n : ℕ)
    (shown : Bytes)
    → c_string text ≡ shown
    → n ≡ length shown
    → All (Shows shown) (dispatch callback streams r text n).0
unfolding dispatch
dispatch-All callback [] r text n shown e size = tt
dispatch-All callback (s ∷ streams) r text n shown e size =
    elim (Bool-cases (level_in_range r.level s.minimum_level s.maximum_level)) [
      | inl inside ↦ rw inside ((e, size), dispatch-All callback streams r text n shown e size)
      | inr outside ↦ rw outside (dispatch-All callback streams r text n shown e size)
    ]

-- For a render buffer of one byte or more and an entry shorter than 2^64 bytes, every stream that a
-- record is written to is handed the C string of the entry's first bytes, one less than the buffer
-- has, and its length.
pub deliver-All :
    (printer : Printer) (callback : Callback) (l : Logger) (k : ℕ) (buffer : Bytes) (r : Record)
    → l.render_capacity ≡ suc k
    → length buffer ≡ suc k
    → length (entry_text printer l.config l.config.format r) < size_mod
    → All
        (Shows (c_string (take k (entry_text printer l.config l.config.format r))))
        (deliver printer callback l buffer r).writes
unfolding deliver
deliver-All printer callback l k buffer r capacity size fits =
    let rendered = render_record_lem printer k l.config r buffer size fits in
    dispatch-All callback l.streams r _ _ _
      (ap (λ n. c_string (render_record printer n l.config r buffer).0) capacity ∙ rendered.0)
      (ap (λ n. (render_record printer n l.config r buffer).1) capacity ∙ rendered.1)
