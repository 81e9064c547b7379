-- ===== src/Render/Result.antt =====
-- What `mp_logger_render_record` of src/mp_logger_streams.c leaves in the buffer.
use native.Mathlib.Decide.{dec_le}
use mp_logger.Common.{
  ℕ, zero, suc, ◌-◌, ◌≤◌, ◌<◌, ◌≡◌, refl, ap, ◌∙◌, sym, [], ◌∷◌, arith, Bytes, leb, ◌==◌,
  if◌then◌else◌, size_mod, length, get_or, set, take, take-all,
}
use mp_logger.Text.{c_string}
use mp_logger.Config.{Config}
use mp_logger.Logger.{Record}
use mp_logger.Render.{Out}
use mp_logger.Render.Number.{Printer}
use mp_logger.Render.Entry.{finalize_buffer, render_by, render_record}
use mp_logger.Render.Output.{Holds}
use mp_logger.Render.Reference.{entry_text}
use mp_logger.Render.Refine.{entry_text-Appends}

-- A NUL behind the first `j` bytes of a text.
c_string-set :
    (b t : Bytes) (j : ℕ)
    → j < length b
    → j ≤ length t
    → ((i : ℕ) → i < j → get_or b i 0 ≡ get_or t i 0)
    → c_string (set b j 0) ≡ c_string (take j t)
unfolding c_string
c_string-set [] t j h g same = absurd (omega arith)
c_string-set (x ∷ b) t zero h g same = refl
c_string-set (x ∷ b) [] (suc j) h g same = absurd (omega arith)
c_string-set (x ∷ b) (y ∷ t) (suc j) h g same =
    ap (λ z. if z == 0 then [] else z ∷ c_string (set b j 0)) (same 0 (omega arith))
    ∙ ap (λ s. if y == 0 then [] else y ∷ s)
        (c_string-set b t j (omega arith) (omega arith) (λ i below. same (suc i) (omega arith)))

if-suc {ℓ} : {A : Type ℓ} (k : ℕ) (x y : A) → (if suc k == 0 then x else y) ≡ y
if-suc k x y = ground arith

end-fits :
    (k used size : ℕ)
    → used ≡ size
    → size ≤ k
    → (if leb (suc k) used then suc k - 1 else used) ≡ size
end-fits k used size h fits = ground arith

end-cut : (k used : ℕ) → k < used → (if leb (suc k) used then suc k - 1 else used) ≡ k
end-cut k used cut = ground arith

finalize_buffer_lem :
    (k : ℕ) (o : Out) (text : Bytes)
    → Holds (suc k) o text
    → c_string (finalize_buffer (suc k) o) ≡ c_string (take k text)
unfolding finalize_buffer
finalize_buffer_lem k o text h = elim (dec_le (length text) k) [
  | yes fits ↦
      ap c_string (if-suc k o.buffer _)
      ∙ ap (λ j. c_string (set o.buffer j 0)) (end-fits k o.used (length text) h.logical fits)
      ∙ c_string-set o.buffer text (length text) (omega (arith, h.size)) (omega arith)
          (λ i below. h.stored i (omega arith) below)
      ∙ ap c_string (take-all (length text) text (omega arith) ∙ sym (take-all k text fits))
  | no cut ↦
      ap c_string (if-suc k o.buffer _)
      ∙ ap (λ j. c_string (set o.buffer j 0)) (end-cut k o.used (omega (arith, h.logical)))
      ∙ c_string-set o.buffer text k (omega (arith, h.size)) (omega arith)
          (λ i below. h.stored i (omega arith) (omega arith))
]

-- For a buffer of one byte or more and an entry shorter than 2^64 bytes, the buffer holds the C
-- string of the entry's first `k` bytes, where `k` is the capacity less one, and the result is
-- that string's length.
pub render_record_lem :
    (printer : Printer) (k : ℕ) (c : Config) (r : Record) (buffer : Bytes)
    → length buffer ≡ suc k
    → length (entry_text printer c c.format r) < size_mod
    → (c_string (render_record printer (suc k) c r buffer).0
        ≡ c_string (take k (entry_text printer c c.format r)))
      × ((render_record printer (suc k) c r buffer).1
          ≡ length (c_string (take k (entry_text printer c c.format r))))
unfolding render_record
render_record_lem printer k c r buffer size fits =
    (ap (λ p. c_string (p.0)) branch ∙ final, ap (λ p. p.1) branch ∙ ap length final)
  where
    blank : Holds (suc k) (record { buffer = buffer; used = 0 }) []
    blank = record { size = size; logical = refl; stored = λ i inside below. absurd (omega arith) }

    out : Bytes
    out =
        finalize_buffer (suc k)
          (render_by printer (suc k) c c.format r (record { buffer = buffer; used = 0 }))

    branch : render_record printer (suc k) c r buffer ≡ (out, length (c_string out))
    branch = if-suc k (buffer, 0) (out, length (c_string out))

    final : c_string out ≡ c_string (take k (entry_text printer c c.format r))
    final =
        finalize_buffer_lem k _ _
          (entry_text-Appends (suc k) printer c c.format r _ [] blank (omega arith))
