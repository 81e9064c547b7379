-- ===== src/Render/Escape.antt =====
-- A reader of JSON strings, and what it makes of the renderer's escaped texts.
use mp_logger.Common.{
  ℕ, zero, suc, ◌+◌, ◌*◌, ◌-◌, ◌/◌, ◌%◌, ◌<◌, ◌≡◌, refl, ap, ◌∙◌, inl, inr, false, ◌&&◌, [], ◌∷◌,
  ◌++◌, append_assoc, Option, none, some, arith, Bytes, ltb, leb, ◌==◌, if◌then◌else◌, size_mod,
  length, Bool-cases, ==_iff, ltb→lt,
}
use mp_logger.Render.{Out, append_json_escaped}
use mp_logger.Render.Number.{hex_digit, unicode_escape}
use mp_logger.Render.Output.{Holds}
use mp_logger.Render.Reference.{json_byte, json_escape}
use mp_logger.Render.Refine.{json_escaped-Appends}

-- Where the reader stands: between characters, behind a backslash, or in front of so many more
-- digits after the next of a `\u` escape, with the value of those before.
pub data Mode : Type 0 where
  plain : Mode
  escaped : Mode
  digits : ℕ → ℕ → Mode

unfoldable pub escape_value : ℕ → Option ℕ
escape_value c =
    if c == b'\\'
    then some b'\\'
    else if c == b'"'
    then some b'"'
    else if c == b'n'
    then some b'\n'
    else if c == b'r'
    then some b'\r'
    else if c == b't'
    then some b'\t'
    else none

unfoldable pub hex_value : ℕ → Option ℕ
hex_value c =
    if leb b'0' c && leb c b'9'
    then some (c - b'0')
    else if leb b'a' c && leb c b'f'
    then some (c - b'a' + 10)
    else none

abbrev pub after_char : ℕ → Option (Bytes × Bytes) → Option (Bytes × Bytes)
after_char c none = none
after_char c (some (s, rest)) = some (c ∷ s, rest)

-- The characters of a JSON string up to its closing quote, and what stands behind that. A control
-- character has to be escaped.
unfoldable pub read_string : Mode → Bytes → Option (Bytes × Bytes)
read_string mode [] = none
read_string plain (c ∷ t) =
    let more = read_string plain t in
    let escape = read_string escaped t in
    if c == b'"'
    then some ([], t)
    else if c == b'\\'
    then escape
    else if ltb c 0x20
    then none
    else after_char c more
read_string escaped (c ∷ t) =
    let more = read_string plain t in
    let unicode = read_string (digits 3 0) t in
    if c == b'u'
    then unicode
    else elim (escape_value c) [ none ↦ none | some value ↦ after_char value more ]
read_string (digits zero value) (c ∷ t) =
    let more = read_string plain t in
    elim (hex_value c) [ none ↦ none | some d ↦ after_char (value * 16 + d) more ]
read_string (digits (suc left) value) (c ∷ t) = elim (hex_value c) [
  | none ↦ none
  | some d ↦ read_string (digits left (value * 16 + d)) t
]

hex_value-hex_digit : (d : ℕ) → d < 16 → hex_value (hex_digit d) ≡ some d
unfolding hex_value hex_digit
hex_value-hex_digit d h = ground arith

-- The steps of the reader that the escapes take.
read_digit :
    (left value c d : ℕ) (t : Bytes)
    → hex_value c ≡ some d
    → read_string (digits (suc left) value) (c ∷ t) ≡ read_string (digits left (value * 16 + d)) t
unfolding read_string
read_digit left value c d t h =
    ap (λ v. elim v [ none ↦ none | some d' ↦ read_string (digits left (value * 16 + d')) t ]) h

read_last_digit :
    (value c d : ℕ) (t : Bytes)
    → hex_value c ≡ some d
    → read_string (digits 0 value) (c ∷ t) ≡ after_char (value * 16 + d) (read_string plain t)
unfolding read_string
read_last_digit value c d t h =
    ap (λ v. elim v [ none ↦ none | some d' ↦ after_char (value * 16 + d') (read_string plain t) ])
      h

read_unicode : (t : Bytes) → read_string plain (b'\\' ∷ b'u' ∷ t) ≡ read_string (digits 3 0) t
unfolding read_string
read_unicode t = refl

read_plain :
    (c : ℕ) (t : Bytes)
    → (c == b'"') ≡ false
    → (c == b'\\') ≡ false
    → ltb c 0x20 ≡ false
    → read_string plain (c ∷ t) ≡ after_char c (read_string plain t)
unfolding read_string
read_plain c t quote slash control = ground (arith, quote, slash, control)

read_string-unicode_escape :
    (c : ℕ) (t : Bytes)
    → c < 0x20
    → read_string plain (unicode_escape c ++ t) ≡ after_char c (read_string plain t)
unfolding unicode_escape
read_string-unicode_escape c t h =
    read_unicode _
    ∙ read_digit 2 0 b'0' 0 _ (unfold hex_value in refl)
    ∙ read_digit 1 0 b'0' 0 _ (unfold hex_value in refl)
    ∙ read_digit 0 0 (hex_digit (c / 16)) (c / 16) _ (hex_value-hex_digit (c / 16) (omega arith))
    ∙ read_last_digit (0 * 16 + c / 16) (hex_digit (c % 16)) (c % 16) t
        (hex_value-hex_digit (c % 16) (omega arith))
    ∙ ap (λ k. after_char k (read_string plain t)) (omega arith)

read_string-json_byte :
    (c : ℕ) (t : Bytes) → read_string plain (json_byte c ++ t) ≡ after_char c (read_string plain t)
unfolding read_string escape_value
read_string-json_byte c t = elim (Bool-cases (c == b'\\')) [
  | inl e ↦ rw ((==_iff c b'\\').0 e) refl
  | inr slash ↦ rw slash (elim (Bool-cases (c == b'"')) [
    | inl e ↦ rw ((==_iff c b'"').0 e) refl
    | inr quote ↦ rw quote (elim (Bool-cases (c == b'\n')) [
      | inl e ↦ rw ((==_iff c b'\n').0 e) refl
      | inr newline ↦ rw newline (elim (Bool-cases (c == b'\r')) [
        | inl e ↦ rw ((==_iff c b'\r').0 e) refl
        | inr return ↦ rw return (elim (Bool-cases (c == b'\t')) [
          | inl e ↦ rw ((==_iff c b'\t').0 e) refl
          | inr tab ↦ rw tab (elim (Bool-cases (ltb c 0x20)) [
            | inl e ↦ rw e (read_string-unicode_escape c t (ltb→lt c 0x20 e))
            | inr other ↦ rw other (read_plain c t quote slash other)
          ])
        ])
      ])
    ])
  ])
]

read_string-json_escape :
    (s rest : Bytes) → read_string plain (json_escape s ++ (b'"' ∷ rest)) ≡ some (s, rest)
unfolding json_escape
read_string-json_escape [] rest = unfold read_string in refl
read_string-json_escape (c ∷ s) rest =
    ap (read_string plain) (append_assoc (json_byte c) (json_escape s) (b'"' ∷ rest))
    ∙ read_string-json_byte c (json_escape s ++ (b'"' ∷ rest))
    ∙ ap (after_char c) (read_string-json_escape s rest)

-- If the buffer holds `text` and the logical length stays within `size_t`, then after the renderer's
-- escape of `s` it holds `text` and the escape behind it, and a reader of JSON strings reads that
-- escape, with a closing quote and any rest behind it, as `s`, and leaves the rest.
pub append_json_escaped_lem :
    (capacity : ℕ) (s rest : Bytes) (o : Out) (text : Bytes)
    → Holds capacity o text
    → length text + length (json_escape s) < size_mod
    → Holds capacity (append_json_escaped capacity s o) (text ++ json_escape s)
      × (read_string plain (json_escape s ++ (b'"' ∷ rest)) ≡ some (s, rest))
append_json_escaped_lem capacity s rest o text h fits =
    (json_escaped-Appends capacity s o text h fits, read_string-json_escape s rest)
