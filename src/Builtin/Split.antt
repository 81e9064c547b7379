-- ===== src/Builtin/Split.antt =====
-- `mp_logger_split_stream_list` of src/mp_logger_bootstrap.c against the comma-separated parts.
use mathlib.Core.Path.{subst}
use mp_logger.Common.{
  ℕ, zero, suc, ◌+◌, ◌≤◌, ◌<◌, ◌≡◌, ◌⊎◌, refl, sym, ap, ◌∙◌, inl, inr, true, false, List, [], ◌∷◌,
  ◌++◌, append-nil, append_assoc, Option, none, some, arith, Bytes, leb, ◌==◌, if◌then◌else◌,
  Bool-cases, length, length-append, is_empty,
}
use mp_logger.Text.{copy_trimmed}
use mp_logger.Config.{active_streams_capacity}
use mp_logger.Builtin.{
  stream_name_capacity, before_comma, after_comma, keep_name, split_rounds, split_stream_list,
}

-- The parts between the commas: the one in front of the first, and the others.
abbrev pub parts_at : ℕ → Bytes × List Bytes → Bytes × List Bytes
parts_at c (part, parts) = if c == b',' then ([], part ∷ parts) else (c ∷ part, parts)

unfoldable pub split_parts : Bytes → Bytes × List Bytes
split_parts [] = ([], [])
split_parts (c ∷ text) = parts_at c (split_parts text)

-- The parts, trimmed and cut to a name's array, less the empty ones.
abbrev pub names_of : List Bytes → List Bytes
names_of [] = []
names_of (part ∷ parts) = keep_name [] (copy_trimmed stream_name_capacity part) ++ names_of parts

abbrev pub listed_names : Bytes → List Bytes
listed_names text = let (part, parts) = split_parts text in names_of (part ∷ parts)

before_comma_lem : (text : Bytes) → before_comma text ≡ (split_parts text).0
unfolding before_comma split_parts
before_comma_lem [] = refl
before_comma_lem (c ∷ text) = ground (arith, before_comma_lem text)

abbrev rest_names : Option Bytes → List Bytes
rest_names none = []
rest_names (some text) = listed_names text

after_comma_lem : (text : Bytes) → rest_names (after_comma text) ≡ names_of (split_parts text).1
unfolding after_comma split_parts
after_comma_lem [] = refl
after_comma_lem (c ∷ text) = elim (Bool-cases (c == b',')) [
  | inl e ↦ rw e refl
  | inr e ↦ rw e (after_comma_lem text)
]

comma_here :
    (c : ℕ) (text : Bytes) {rest : Bytes}
    → (c == b',') ≡ true
    → after_comma (c ∷ text) ≡ some rest
    → text ≡ rest
unfolding after_comma
comma_here c text found e = ground (arith, found, e)

comma_later :
    (c : ℕ) (text : Bytes) {rest : Bytes}
    → (c == b',') ≡ false
    → after_comma (c ∷ text) ≡ some rest
    → after_comma text ≡ some rest
unfolding after_comma
comma_later c text other e = ground (arith, other, e)

after_comma-shorter :
    (text : Bytes) {rest : Bytes} → after_comma text ≡ some rest → length rest < length text
unfolding after_comma
after_comma-shorter [] e = absurd (cc)
after_comma-shorter (c ∷ text) e = elim (Bool-cases (c == b',')) [
  | inl found ↦ omega (arith, ap length (comma_here c text found e))
  | inr other ↦ omega (arith, after_comma-shorter text (comma_later c text other e))
]

keep_name_lem :
    (names : List Bytes) (name : Bytes) → keep_name names name ≡ names ++ keep_name [] name
unfolding keep_name
keep_name_lem names name = elim (Bool-cases (is_empty name)) [
  | inl e ↦ rw e (sym (append-nil names))
  | inr e ↦ rw e refl
]

listed_names-nil : listed_names [] ≡ []
unfolding split_parts keep_name copy_trimmed mp_logger.Text.trim_start mp_logger.Text.trim_end
listed_names-nil = refl

-- Either the names fit, and are the result, or there are too many for the array.
abbrev pub IsSplit : ℕ → List Bytes → Option (List Bytes) → Type 0
IsSplit max_names names result =
    ((result ≡ some names) × (length names ≤ max_names))
    ⊎ ((result ≡ none) × (max_names ≤ length names))

listed_names-cons :
    (c : ℕ) (text : Bytes) (names : List Bytes)
    → names ++ listed_names (c ∷ text)
      ≡ keep_name names (copy_trimmed stream_name_capacity (before_comma (c ∷ text)))
        ++ rest_names (after_comma (c ∷ text))
listed_names-cons c text names =
    let name = copy_trimmed stream_name_capacity (split_parts (c ∷ text)).0 in
    sym (append_assoc names (keep_name [] name) (names_of (split_parts (c ∷ text)).1))
    ∙ ap (λ kept. kept ++ names_of (split_parts (c ∷ text)).1) (sym (keep_name_lem names name))
    ∙ ap
        (λ part.
          keep_name names (copy_trimmed stream_name_capacity part)
          ++ names_of (split_parts (c ∷ text)).1)
        (sym (before_comma_lem (c ∷ text)))
    ∙ ap
        (λ rest.
          keep_name names (copy_trimmed stream_name_capacity (before_comma (c ∷ text))) ++ rest)
        (sym (after_comma_lem (c ∷ text)))

keep_name-length :
    (names : List Bytes) (name : Bytes) → length (keep_name names name) ≤ length names + 1
unfolding keep_name
keep_name-length names name = ground (arith, length-append names (name ∷ []))

keep_name_fits :
    (names : List Bytes) (name : Bytes) (max_names : ℕ)
    → leb max_names (length names) ≡ false
    → length (keep_name names name) ≤ max_names
keep_name_fits names name max_names e = ground (arith, e, keep_name-length names name)

ended-IsSplit :
    (max_names : ℕ) (names : List Bytes)
    → length names ≤ max_names
    → IsSplit max_names (names ++ listed_names []) (some names)
ended-IsSplit max_names names within =
    subst (λ full. IsSplit max_names full (some names))
      (sym (ap (λ more. names ++ more) listed_names-nil ∙ append-nil names)) (inl (refl, within))

-- The rest of a round whose name has been kept.
next-IsSplit :
    (rounds max_names : ℕ) (kept : List Bytes) (rest : Option Bytes)
    → length kept ≤ max_names
    → ((cursor : Bytes)
        → rest ≡ some cursor
        → IsSplit max_names
            (kept ++ listed_names cursor)
            (split_rounds rounds max_names cursor kept))
    → IsSplit max_names
        (kept ++ rest_names rest)
        (elim rest [ none ↦ some kept | some cursor ↦ split_rounds rounds max_names cursor kept ])
next-IsSplit rounds max_names kept none within h =
    subst (λ full. IsSplit max_names full (some kept)) (sym (append-nil kept)) (inl (refl, within))
next-IsSplit rounds max_names kept (some cursor) within h = h cursor refl

full-IsSplit :
    (max_names : ℕ) (names more : List Bytes)
    → max_names ≤ length names
    → IsSplit max_names (names ++ more) none
full-IsSplit max_names names more h = inr (refl, omega (arith, length-append names more))

split_rounds_lem :
    (rounds max_names : ℕ) (cursor : Bytes) (names : List Bytes)
    → length cursor ≤ rounds
    → length names ≤ max_names
    → IsSplit max_names (names ++ listed_names cursor) (split_rounds rounds max_names cursor names)
unfolding split_rounds
split_rounds_lem zero max_names [] names enough within = ended-IsSplit max_names names within
split_rounds_lem zero max_names (c ∷ text) names enough within = absurd (omega arith)
split_rounds_lem (suc rounds) max_names [] names enough within =
    ended-IsSplit max_names names within
split_rounds_lem (suc rounds) max_names (c ∷ text) names enough within =
    let name = copy_trimmed stream_name_capacity (before_comma (c ∷ text)) in
    elim (Bool-cases (leb max_names (length names))) [
      | inl e ↦ rw e (full-IsSplit max_names names (listed_names (c ∷ text)) (ground (arith, e)))
      | inr e ↦
          let fits = keep_name_fits names name max_names e in
          rw (e, listed_names-cons c text names)
            (next-IsSplit rounds max_names (keep_name names name) (after_comma (c ∷ text)) fits
              (λ cursor f.
                split_rounds_lem rounds max_names cursor (keep_name names name)
                  (omega (arith, after_comma-shorter (c ∷ text) f)) fits))
    ]

listed_names-blank : listed_names (copy_trimmed active_streams_capacity []) ≡ []
unfolding split_parts keep_name copy_trimmed mp_logger.Text.trim_start mp_logger.Text.trim_end
listed_names-blank = refl

-- The split of a stream list is the list of the comma-separated parts of the trimmed text, each
-- trimmed and cut to the size of a name, in their order and without the empty ones; or it fails, and
-- then there are at least as many of them as the array has places. At the end of the loop nothing of
-- the text is left over: the number of its rounds is enough for every text.
pub split_stream_list_lem :
    (active_streams : Bytes) (max_names : ℕ)
    → IsSplit max_names
        (listed_names (copy_trimmed active_streams_capacity active_streams))
        (split_stream_list active_streams max_names)
unfolding split_stream_list
split_stream_list_lem [] max_names =
    subst (λ names. IsSplit max_names names (some [])) (sym listed_names-blank)
      (inl (refl, omega arith))
split_stream_list_lem (c ∷ text) max_names =
    let buffer = copy_trimmed active_streams_capacity (c ∷ text) in
    split_rounds_lem (length buffer) max_names buffer [] (omega arith) (omega arith)
