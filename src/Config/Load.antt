-- ===== src/Config/Load.antt =====
-- `mp_logger_bootstrap_load` of src/mp_logger_bootstrap.c.
pub mod Laws
use mp_logger.Common.{
  ℕ, zero, suc, Bool, true, false, ◌||◌, List, [], ◌∷◌, Option, none, some, Bytes, codes, ◌==◌,
  if◌then◌else◌, length, get_or, is_empty,
}
use mp_logger.Text.{c_string, copy_trimmed, unquote_scalar, equal_ignore_case}
use mp_logger.Status.{Status, status_ok, invalid_argument, io_error, config_error}
use mp_logger.Config.{Config, config_init_defaults}
use mp_logger.Config.Apply.{section_capacity, key_capacity, value_capacity, config_apply_override}

abbrev pub line_capacity : ℕ
line_capacity = 512

-- `fgets`: at most so many bytes, up to a newline and with it, and what is left of the file.
unfoldable pub read_line : ℕ → Bytes → Bytes × Bytes
read_line zero file = ([], file)
read_line (suc n) [] = ([], [])
read_line (suc n) (c ∷ file) =
    let more = read_line n file in if c == b'\n' then (c ∷ [], file) else (c ∷ more.0, more.1)

-- The lines that the loop reads. A round reads a byte at least, so the file's length is enough fuel.
unfoldable pub read_lines : ℕ → Bytes → List Bytes
read_lines zero file = []
read_lines (suc fuel) [] = []
read_lines (suc fuel) (c ∷ file) =
    let more = read_line 511 (c ∷ file) in more.0 ∷ read_lines fuel more.1

-- `strchr`: what stands before and behind the first occurrence.
unfoldable pub split_at : ℕ → Bytes → Option (Bytes × Bytes)
split_at stop [] = none
split_at stop (c ∷ s) =
    if c == stop
    then some ([], s)
    else elim (split_at stop s) [ none ↦ none | some (before, after) ↦ some (c ∷ before, after) ]

-- The suffix from the last dot on, which `strrchr` finds.
unfoldable pub last_dot : Bytes → Option Bytes
last_dot [] = none
last_dot (c ∷ s) = elim (last_dot s) [
  | some suffix ↦ some suffix
  | none ↦ if c == b'.' then some (c ∷ s) else none
]

unfoldable pub has_yaml_extension : Bytes → Bool
has_yaml_extension path = elim (last_dot path) [
  | none ↦ false
  | some extension ↦
      equal_ignore_case extension (codes ".yaml") || equal_ignore_case extension (codes ".yml")
]

-- A round goes on with a section and a configuration, or the load fails with a configuration error.
abbrev go_on : Bytes → Status × Config → Option (Bytes × Config)
go_on section (status_ok, c) = some (section, c)
go_on section _ = none

-- `key` and `value` are the trimmed parts of the line, the value without its quotes.
unfoldable pub apply_entry : Bytes → Bytes → Bytes → Config → Option (Bytes × Config)
apply_entry key value section c =
    if is_empty value
    then some (copy_trimmed section_capacity key, c)
    else if is_empty key
    then none
    else go_on section (config_apply_override c (some section) (some key) (some value))

-- One round of the loop, on what `fgets` left in `line`.
unfoldable pub process_line : Bytes → Bytes → Config → Option (Bytes × Config)
process_line line section c =
    let trimmed = copy_trimmed line_capacity (c_string line) in
    if is_empty trimmed || get_or trimmed 0 0 == b'#'
    then some (section, c)
    else elim (split_at b':' trimmed) [
      | none ↦ none
      | some (before, after) ↦
          apply_entry (copy_trimmed key_capacity before)
            (unquote_scalar (copy_trimmed value_capacity after)) section c
    ]

unfoldable pub process_lines : List Bytes → Bytes → Config → Option Config
process_lines [] section c = some c
process_lines (line ∷ lines) section c = elim (process_line line section c) [
  | none ↦ none
  | some (section', c') ↦ process_lines lines section' c'
]

-- The status, and `*out_config` where it is written. The file system is a function from paths to
-- the contents of the files that can be opened; `none` is a NULL path.
unfoldable pub bootstrap_load : (Bytes → Option Bytes) → Option Bytes → Status × Option Config
bootstrap_load files none = (invalid_argument, none)
bootstrap_load files (some path) =
    if has_yaml_extension path
    then elim (files path) [
      | none ↦ (io_error, none)
      | some file ↦
          elim (process_lines (read_lines (length file) file) (codes "") config_init_defaults) [
            | none ↦ (config_error, none)
            | some c ↦ (status_ok, some c)
          ]
    ]
    else (config_error, none)
