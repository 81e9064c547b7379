-- ===== src/Files.antt =====
-- Paths and directories of src/mp_logger_streams.c, and the run suffix of src/mp_logger.c.
pub mod StreamPath
use mp_logger.Common.{
  ℕ, ◌+◌, Bool, true, false, ◌||◌, List, [], ◌∷◌, ◌++◌, Option, none, some, Bytes, codes, leb,
  if◌then◌else◌, add_size, length, str_eq, is_empty,
}

-- What `mkdir` answers: 0, or -1 with `EEXIST` or another error.
pub data Mkdir : Type 0 where
  made already_there refused : Mkdir

-- The answers of the file system to one call: of the first `stat`, of `mkdir` and of the second
-- `stat`. A `stat` that succeeds says whether the path is a directory.
pub record Directory : Type 0 where
  pub first_stat : Option Bool
  pub mkdir : Mkdir
  pub second_stat : Option Bool

abbrev pub default_directory : Bytes
default_directory = codes "."

unfoldable pub ensure_directory : Directory → Bytes → Bool
ensure_directory answers path =
    if is_empty path || str_eq path default_directory then true else elim answers.first_stat [
      | some is_directory ↦ is_directory
      | none ↦ elim answers.mkdir [
        | made ↦ true
        | already_there ↦ elim answers.second_stat [
          | some is_directory ↦ is_directory
          | none ↦ false
        ]
        | refused ↦ false
      ]
    ]

-- The part of the buffer in front of the offset, whose length is the offset; `none` is the result 0.
unfoldable pub copy_component : ℕ → Bytes → Bytes → Option Bytes
copy_component capacity written value =
    if leb capacity (add_size (length written) (length value))
    then none
    else some (written ++ value)

-- The calls joined by `||`: the first that fails ends the chain.
unfoldable pub copy_components : ℕ → Bytes → List Bytes → Option Bytes
copy_components capacity written [] = some written
copy_components capacity written (value ∷ values) = elim (copy_component capacity written value) [
  | none ↦ none
  | some longer ↦ copy_components capacity longer values
]

abbrev pub extension : Bytes
extension = codes ".log"

-- `required_length`, in the order of the additions.
abbrev pub required_flat : Bytes → Bytes → ℕ
required_flat prefix run_suffix =
    add_size (add_size (add_size (length prefix) 1) (length run_suffix)) (length extension)

abbrev pub required_nested : Bytes → Bytes → Bytes → ℕ
required_nested directory prefix run_suffix =
    add_size
      (add_size (add_size (add_size (add_size (length directory) 1) (length prefix)) 1)
        (length run_suffix))
      (length extension)

-- The C string that the buffer holds where the result is 1; `none` is the result 0, with an empty
-- buffer.
unfoldable pub make_stream_path : ℕ → Bytes → Bytes → Bytes → Option Bytes
make_stream_path capacity directory prefix run_suffix =
    if str_eq directory default_directory
    then (if leb capacity (required_flat prefix run_suffix)
        then none
        else copy_components capacity (codes "") (prefix ∷ codes "." ∷ run_suffix ∷ extension ∷ []))
    else if leb capacity (required_nested directory prefix run_suffix)
    then none
    else copy_components capacity (codes "")
        (directory ∷ codes "/" ∷ prefix ∷ codes "." ∷ run_suffix ∷ extension ∷ [])

abbrev pub run_suffix_capacity : ℕ
run_suffix_capacity = 32

-- `mp_logger_make_run_suffix`; the argument is the text that `strftime` has for the time, where
-- `gmtime_r` has given one.
unfoldable pub make_run_suffix : Option Bytes → Bytes
make_run_suffix none = codes "19700101T000000Z"
make_run_suffix (some text) =
    if is_empty text || leb run_suffix_capacity (length text)
    then codes "19700101T000000Z"
    else text
