-- ===== src/Config/Load/Laws.antt =====
-- What the loader reads, what it returns, and what it makes of an empty value.
use mathlib.Core.List.{flatten}
use mp_logger.Common.{
  ℕ, zero, suc, ◌≤◌, ◌<◌, ◌≡◌, refl, ap, ◌∙◌, inl, inr, List, [], ◌∷◌, ◌++◌, Option, none, some,
  arith, Bytes, codes, ◌==◌, Bool-cases, Option-cases, length, get_or, is_empty, ◌||◌,
}
use mp_logger.Text.{c_string, is_space, trim_start, trim_end, copy_trimmed, unquote_scalar}
use mp_logger.Status.{Status, status_ok, config_error}
use mp_logger.Config.{Config, config_init_defaults}
use mp_logger.Config.Apply.{key_capacity, value_capacity, config_apply_override}
use mp_logger.Config.Apply.Bounds.{
  IsBounded, config_init_defaults-IsBounded, config_apply_override-IsBounded,
}
use mp_logger.Config.Load.{
  read_line, read_lines, split_at, has_yaml_extension, go_on, apply_entry, process_line,
  process_lines, bootstrap_load, line_capacity,
}

read_line-append : (n : ℕ) (file : Bytes) → (read_line n file).0 ++ (read_line n file).1 ≡ file
unfolding read_line
read_line-append zero file = refl
read_line-append (suc n) [] = refl
read_line-append (suc n) (c ∷ file) = ground (arith, read_line-append n file)

read_line-le : (n : ℕ) (file : Bytes) → length (read_line n file).1 ≤ length file
unfolding read_line
read_line-le zero file = omega arith
read_line-le (suc n) [] = omega arith
read_line-le (suc n) (c ∷ file) = ground (arith, read_line-le n file)

read_line-lt :
    (n : ℕ) (c : ℕ) (file : Bytes) → length (read_line (suc n) (c ∷ file)).1 < length (c ∷ file)
unfolding read_line
read_line-lt n c file = ground (arith, read_line-le n file)

-- With at least the file's length as fuel the loop reads the whole file, in pieces that follow one another.
read_lines_complete :
    (fuel : ℕ) (file : Bytes) → length file ≤ fuel → flatten (read_lines fuel file) ≡ file
unfolding read_lines flatten
read_lines_complete zero [] h = refl
read_lines_complete zero (c ∷ file) h = absurd (omega arith)
read_lines_complete (suc fuel) [] h = refl
read_lines_complete (suc fuel) (c ∷ file) h =
    ap (λ rest. (read_line 511 (c ∷ file)).0 ++ rest)
      (read_lines_complete fuel _ (omega (arith, read_line-lt 510 c file)))
    ∙ read_line-append 511 (c ∷ file)

-- The configuration that a round or the loop leaves, where it leaves one, is in range.
abbrev RoundIsBounded : Option (Bytes × Config) → Type 0
RoundIsBounded none = Unit
RoundIsBounded (some (_, c)) = IsBounded c

abbrev LoadIsBounded : Option Config → Type 0
LoadIsBounded none = Unit
LoadIsBounded (some c) = IsBounded c

go_on-IsBounded :
    (section : Bytes) (r : Status × Config) → IsBounded r.1 → RoundIsBounded (go_on section r)
go_on-IsBounded section (status_ok, c) b = b
go_on-IsBounded section (_, c) b = tt

apply_entry-IsBounded :
    (key value section : Bytes) {c : Config}
    → IsBounded c
    → RoundIsBounded (apply_entry key value section c)
unfolding apply_entry
apply_entry-IsBounded key value section {c} b = elim (Bool-cases (is_empty value)) [
  | inl e ↦ rw e b
  | inr e ↦ rw e (elim (Bool-cases (is_empty key)) [
    | inl k ↦ rw k tt
    | inr k ↦ rw k (
        go_on-IsBounded section (config_apply_override c (some section) (some key) (some value))
          (config_apply_override-IsBounded (some section) (some key) (some value) b))
  ])
]

process_line-IsBounded :
    (line section : Bytes) {c : Config} → IsBounded c → RoundIsBounded (process_line line section c)
unfolding process_line
process_line-IsBounded line section {c} b =
    let trimmed = copy_trimmed line_capacity (c_string line) in
    elim (Bool-cases (is_empty trimmed || get_or trimmed 0 0 == b'#')) [
      | inl e ↦ rw e b
      | inr e ↦ rw e (elim (Option-cases (split_at b':' trimmed)) [
        | inl n ↦ rw n tt
        | inr ((before, after), n) ↦ rw n (
            apply_entry-IsBounded (copy_trimmed key_capacity before)
              (unquote_scalar (copy_trimmed value_capacity after)) section b)
      ])
    ]

process_lines-IsBounded :
    (lines : List Bytes) (section : Bytes) {c : Config}
    → IsBounded c
    → LoadIsBounded (process_lines lines section c)
unfolding process_lines
process_lines-IsBounded [] section b = b
process_lines-IsBounded (line ∷ lines) section b =
    (elim (process_line line section _)
        as (λ r.
          RoundIsBounded r
          → LoadIsBounded
              (elim r [ none ↦ none | some (section', c') ↦ process_lines lines section' c' ])) [
                | none ↦ λ _. tt
                | some (section', c') ↦ λ b'. process_lines-IsBounded lines section' b'
              ])
      (process_line-IsBounded line section b)

load_result-IsBounded :
    (files : Bytes → Option Bytes) (path : Bytes)
    → LoadIsBounded (bootstrap_load files (some path)).1
unfolding bootstrap_load
load_result-IsBounded files path = elim (Bool-cases (has_yaml_extension path)) [
  | inr e ↦ rw e tt
  | inl e ↦ rw e (elim (Option-cases (files path)) [
    | inl n ↦ rw n tt
    | inr (file, n) ↦ rw n (
        (elim (process_lines (read_lines (length file) file) (codes "") config_init_defaults)
            as (λ (r : Option Config).
              LoadIsBounded r
              → LoadIsBounded (
                  let out : Status × Option Config = elim r [
                    | none ↦ (config_error, none)
                    | some c ↦ (status_ok, some c)
                  ] in
                  out.1)) [ none ↦ λ _. tt | some c ↦ λ b. b ])
          (process_lines-IsBounded _ (codes "") config_init_defaults-IsBounded))
  ])
]

-- Whatever the file holds, a load that returns OK leaves a configuration in range.
pub bootstrap_load-IsBounded :
    (files : Bytes → Option Bytes) (path : Option Bytes) {c : Config}
    → bootstrap_load files path ≡ (status_ok, some c)
    → IsBounded c
bootstrap_load-IsBounded files none h = unfold bootstrap_load in cc
bootstrap_load-IsBounded files (some path) h =
    rw (ap (λ r. r.1) h) at (load_result-IsBounded files path)

-- A line whose value is an empty quoted text names a section: no override is applied.
pub empty_value_names_section :
    (section : Bytes) (c : Config)
    → process_line (codes "active_streams: \"\"") section c ≡ some (codes "active_streams", c)
unfolding process_line apply_entry copy_trimmed trim_start trim_end is_space c_string split_at
    unquote_scalar
empty_value_names_section section c = refl
