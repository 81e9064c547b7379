-- ===== src/Builtin/Sinks.antt =====
-- The `write` callbacks of the built-in streams in src/mp_logger_streams.c.
use mp_logger.Common.{
  ℕ, ◌≡◌, ◌↔◌, refl, sym, ap, ◌∙◌, append-nil, Bool, true, List, [], ◌∷◌, ◌++◌, Option, none, some,
  arith, Bytes, codes, ◌==◌, if◌then◌else◌, take, length, take-all,
}
use mp_logger.Status.{Status, status_ok, invalid_argument, io_error}
use mp_logger.Builtin.{StreamState, file_state, udp_state}
use mp_logger.Worker.{Write}

-- What the system answers: whether `fflush` succeeds, and what `sendto` has sent.
pub record SinkAnswers : Type 0 where
  pub flushed : Bool
  pub sent : Option ℕ

-- The bytes that are handed to the system with the file handle, and the status. The answers of
-- `fwrite` are ignored.
unfoldable pub write_file_stream : Bool → ℕ → Bytes → (ℕ × Bytes) × Status
write_file_stream flushed file_handle entry =
    ((file_handle, entry ++ codes "\n"), if flushed then status_ok else io_error)

-- The datagram, with the socket, and the status.
unfoldable pub write_udp_stream : Option ℕ → ℕ → Bytes → ℕ → (ℕ × Bytes) × Status
write_udp_stream sent fd entry entry_length = (
  (fd, take entry_length entry),
  elim sent [ none ↦ io_error | some n ↦ if n == entry_length then status_ok else io_error ],
)

-- The callback of a built-in stream, by what its context holds; `none` is a NULL context.
unfoldable pub write_stream : SinkAnswers → Option StreamState → Write → List (ℕ × Bytes) × Status
write_stream answers none w = ([], invalid_argument)
write_stream answers (some (file_state file_handle path close_on_destroy)) w =
    let (written, result) = write_file_stream answers.flushed file_handle w.text in
    (written ∷ [], result)
write_stream answers (some (udp_state fd endpoint)) w =
    let (sent, result) = write_udp_stream answers.sent fd w.text w.text_length in
    (sent ∷ [], result)

-- What a file gets behind the entry, and a datagram does not.
abbrev pub line_end : StreamState → Bytes
line_end (file_state file_handle path close_on_destroy) = codes "\n"
line_end (udp_state fd endpoint) = codes ""

abbrev pub target : StreamState → ℕ
target (file_state file_handle path close_on_destroy) = file_handle
target (udp_state fd endpoint) = fd

-- The system took all of it.
abbrev pub IsTaken : SinkAnswers → StreamState → Write → Type 0
IsTaken answers (file_state file_handle path close_on_destroy) w = answers.flushed ≡ true
IsTaken answers (udp_state fd endpoint) w = answers.sent ≡ some w.text_length

-- One entry goes to a built-in stream in one piece: the whole text, with an end of line in a file and
-- without in a datagram, and the answer is OK exactly if the file was flushed or the whole datagram
-- was sent. The length that comes with the text is its own.
write_stream_lem :
    (answers : SinkAnswers) (state : StreamState) (w : Write)
    → w.text_length ≡ length w.text
    → ((write_stream answers (some state) w).0 ≡ (target state, w.text ++ line_end state) ∷ [])
      × (((write_stream answers (some state) w).1 ≡ status_ok) ↔ IsTaken answers state w)
unfolding write_stream write_file_stream write_udp_stream
write_stream_lem answers (file_state file_handle path close_on_destroy) w e = (refl, ground arith)
write_stream_lem answers (udp_state fd endpoint) w e = (
  ap (λ bytes. (fd, bytes) ∷ [])
      (take-all w.text_length w.text (omega (arith, e)) ∙ sym (append-nil w.text)),
  ground arith,
)
