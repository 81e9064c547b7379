-- ===== src/Files/StreamPath.antt =====
-- The paths that `mp_logger_make_stream_path` writes.
use mp_logger.Common.{
  ℕ, ◌+◌, ◌<◌, ◌≡◌, List, [], ◌∷◌, ◌++◌, none, some, arith, Bytes, codes, leb, if◌then◌else◌,
  size_mod, length, length-append, str_eq,
}
use mp_logger.Files.{
  default_directory, copy_component, copy_components, extension, make_stream_path,
}

-- `prefix.suffix.log` in the current directory, `directory/prefix.suffix.log` elsewhere.
unfoldable pub file_name : Bytes → Bytes → Bytes
file_name prefix run_suffix = prefix ++ codes "." ++ run_suffix ++ extension

unfoldable pub stream_path : Bytes → Bytes → Bytes → Bytes
stream_path directory prefix run_suffix =
    if str_eq directory default_directory
    then file_name prefix run_suffix
    else directory ++ codes "/" ++ prefix ++ codes "." ++ run_suffix ++ extension

-- The components behind one another.
abbrev joined_parts : Bytes → List Bytes → Bytes
joined_parts written [] = written
joined_parts written (value ∷ values) = joined_parts (written ++ value) values

abbrev total_length : List Bytes → ℕ
total_length [] = 0
total_length (value ∷ values) = length value + total_length values

length-joined_parts :
    (written : Bytes) (values : List Bytes)
    → length (joined_parts written values) ≡ length written + total_length values
length-joined_parts written [] = omega arith
length-joined_parts written (value ∷ values) =
    omega (arith, length-joined_parts (written ++ value) values, length-append written value)

copy_components_lem :
    (capacity : ℕ) (written : Bytes) (values : List Bytes)
    → length written < capacity
    → length written + total_length values < size_mod
    → copy_components capacity written values ≡ (
        if leb capacity (length (joined_parts written values))
        then none
        else some (joined_parts written values))
unfolding copy_components copy_component
copy_components_lem capacity written [] h fits = ground arith
copy_components_lem capacity written (value ∷ values) h fits = ground (
  arith,
  length-append written value,
  length-joined_parts (written ++ value) values,
  copy_components_lem capacity (written ++ value) values,
)

-- For a buffer of a byte or more and texts whose lengths add up in `size_t`, the result is 1 exactly if the path and its NUL fit
-- the buffer, and the buffer holds the path then.
pub make_stream_path_lem :
    (capacity : ℕ) (directory prefix run_suffix : Bytes)
    → 0 < capacity
    → length directory + length prefix + length run_suffix + 6 < size_mod
    → make_stream_path capacity directory prefix run_suffix ≡ (
        if leb capacity (length (stream_path directory prefix run_suffix))
        then none
        else some (stream_path directory prefix run_suffix))
unfolding make_stream_path stream_path file_name
make_stream_path_lem capacity directory prefix run_suffix room h =
    let flat = prefix ∷ codes "." ∷ run_suffix ∷ extension ∷ [] in
    let nested = directory ∷ codes "/" ∷ flat in
    ground (
      arith,
      length-joined_parts (codes "") flat,
      length-joined_parts (codes "") nested,
      copy_components_lem capacity (codes "") flat,
      copy_components_lem capacity (codes "") nested,
    )
