-- ===== src/Builtin.antt =====
-- The built-in streams: `mp_logger_split_stream_list` of src/mp_logger_bootstrap.c, and the makers of
-- streams and `mp_logger_build_builtin_streams` of src/mp_logger_streams.c.
pub mod Split
pub mod Build
pub mod Resources
pub mod Table
pub mod Sinks
use mp_logger.Common.{
  ℕ, zero, suc, ◌+◌, ◌-◌, Bool, true, false, not, ◌&&◌, List, [], ◌∷◌, ◌++◌, Option, none, some,
  Bytes, codes, leb, ◌==◌, if◌then◌else◌, length, str_eq, is_empty, take,
}
use mp_logger.Text.{copy_trimmed, sanitize_file_component}
use mp_logger.Status.{Status, status_ok, config_error, io_error, Level, level_name, level_warning}
use mp_logger.Config.{name_capacity, path_capacity, active_streams_capacity, host_capacity}
use mp_logger.Logger.{Stream, Logger}
use mp_logger.Streams.{max_streams, add_owned_stream}
use mp_logger.Render.Number.{print_unsigned}
use mp_logger.Files.{Directory, ensure_directory, make_stream_path}
use mp_logger.Backup.{Notice, log_path}

abbrev pub stream_name_capacity : ℕ
stream_name_capacity = 32

-- The text in front of the first comma, and the one behind it, where `strchr` finds one.
unfoldable pub before_comma : Bytes → Bytes
before_comma [] = []
before_comma (c ∷ text) = let rest = before_comma text in if c == b',' then [] else c ∷ rest

unfoldable pub after_comma : Bytes → Option Bytes
after_comma [] = none
after_comma (c ∷ text) = let rest = after_comma text in if c == b',' then some text else rest

-- A name that is not empty is kept.
unfoldable pub keep_name : List Bytes → Bytes → List Bytes
keep_name names name = if is_empty name then names else names ++ (name ∷ [])

-- The loop, for the rounds left, with the names so far; `none` is the result 0.
unfoldable pub split_rounds : ℕ → ℕ → Bytes → List Bytes → Option (List Bytes)
split_rounds zero max_names cursor names = some names
split_rounds (suc rounds) max_names [] names = some names
split_rounds (suc rounds) max_names (c ∷ text) names =
    let kept = keep_name names (copy_trimmed stream_name_capacity (before_comma (c ∷ text))) in
    let next : Option (List Bytes) = elim (after_comma (c ∷ text)) [
      | none ↦ some kept
      | some cursor ↦ split_rounds rounds max_names cursor kept
    ] in
    if leb max_names (length names) then none else next

-- Every round shortens the text, so its length is enough.
unfoldable pub split_stream_list : Bytes → ℕ → Option (List Bytes)
split_stream_list active_streams max_names =
    let buffer = copy_trimmed active_streams_capacity active_streams in
    if is_empty active_streams then some [] else split_rounds (length buffer) max_names buffer []

-- What a built-in stream's context holds.
pub data StreamState : Type 0 where
  file_state : ℕ → Bytes → Bool → StreamState
  udp_state : ℕ → Bytes → StreamState

-- What is taken from the system and given back to it.
pub data Resource : Type 0 where
  context file socket addresses : ℕ → Resource

pub data Effect : Type 0 where
  acquire release : Resource → Effect

-- The answers to the calls of one round: of `calloc`, of the file system, of `fopen`, `getaddrinfo`
-- and `socket`.
pub record Answers : Type 0 where
  pub calloc : Option ℕ
  pub directory : Directory
  pub fopen : Bytes → Option ℕ
  pub getaddrinfo : Bytes → Bytes → Option ℕ
  pub open_socket : Option ℕ

-- A status, what `*out_stream` is where it is OK, with what its context holds, and the effects.
pub record Made : Type 0 where
  pub result : Status
  pub stream : Option (Stream × StreamState)
  pub effects : List Effect

abbrev pub failed : List Effect → Made
failed effects = record { result = io_error; stream = none; effects = effects }

unfoldable pub builtin_stream : Bytes → ℕ → Level → Level → Stream
builtin_stream name state minimum_level maximum_level = record {
  stream_name = copy_trimmed name_capacity name;
  minimum_level = minimum_level;
  maximum_level = maximum_level;
  stream_context = state;
  has_write = true;
  has_destroy = true;
}

-- `mp_logger_make_stdio_stream`
unfoldable pub make_stdio_stream : Option ℕ → Bytes → ℕ → Level → Level → Made
make_stdio_stream none name file_handle minimum_level maximum_level = failed []
make_stdio_stream (some state) name file_handle minimum_level maximum_level = record {
  result = status_ok;
  stream = some (
    builtin_stream name state minimum_level maximum_level,
    file_state file_handle (copy_trimmed path_capacity name) false,
  );
  effects = acquire (context state) ∷ [];
}

-- Behind the allocation of the context.
unfoldable pub open_file_stream : Answers → Logger → ℕ → Made
open_file_stream answers l state =
    elim (log_path l.config.log_directory l.config.file_name_prefix l.run_suffix) [
      | none ↦ failed (acquire (context state) ∷ release (context state) ∷ [])
      | some path ↦ elim (answers.fopen path) [
        | none ↦ failed (acquire (context state) ∷ release (context state) ∷ [])
        | some file_handle ↦ record {
          result = status_ok;
          stream = some (
            builtin_stream (codes "file") state l.config.file_min_level l.config.file_max_level,
            file_state file_handle path true,
          );
          effects = acquire (context state) ∷ acquire (file file_handle) ∷ [];
        }
      ]
    ]

-- `mp_logger_make_file_stream`
unfoldable pub make_file_stream : Answers → Logger → Made
make_file_stream answers l =
    if ensure_directory answers.directory l.config.log_directory
    then elim answers.calloc [ none ↦ failed [] | some state ↦ open_file_stream answers l state ]
    else failed []

abbrev port_text_capacity : ℕ
port_text_capacity = 16

abbrev endpoint_capacity : ℕ
endpoint_capacity = host_capacity + 16

unfoldable pub port_text : Logger → Bytes
port_text l = take (port_text_capacity - 1) (print_unsigned l.config.udp_port)

unfoldable pub endpoint_text : Logger → Bytes
endpoint_text l =
    take (endpoint_capacity - 1)
      (l.config.udp_host ++ codes ":" ++ print_unsigned l.config.udp_port)

-- Behind the resolution of the name.
unfoldable pub open_udp_stream : Answers → Logger → ℕ → Made
open_udp_stream answers l list = elim answers.open_socket [
  | none ↦ failed (acquire (addresses list) ∷ release (addresses list) ∷ [])
  | some fd ↦ elim answers.calloc [
    | none ↦ failed (
        acquire (addresses list)
        ∷ acquire (socket fd)
        ∷ release (socket fd)
        ∷ release (addresses list)
        ∷ [])
    | some state ↦ record {
      result = status_ok;
      stream = some (
        builtin_stream (codes "udp") state l.config.udp_min_level l.config.udp_max_level,
        udp_state fd (endpoint_text l),
      );
      effects =
          acquire (addresses list)
          ∷ acquire (socket fd)
          ∷ acquire (context state)
          ∷ release (addresses list)
          ∷ [];
    }
  ]
]

-- `mp_logger_make_udp_stream`
unfoldable pub make_udp_stream : Answers → Logger → Made
make_udp_stream answers l = elim (answers.getaddrinfo l.config.udp_host (port_text l)) [
  | none ↦ failed []
  | some list ↦ open_udp_stream answers l list
]

-- `mp_logger_destroy_file_stream`, with the context, the handle and `close_on_destroy`.
abbrev pub destroy_file_stream : ℕ → ℕ → Bool → List Effect
destroy_file_stream state file_handle close_on_destroy =
    if close_on_destroy
    then release (file file_handle) ∷ release (context state) ∷ []
    else release (context state) ∷ []

-- `mp_logger_destroy_udp_stream`
abbrev pub destroy_udp_stream : ℕ → ℕ → List Effect
destroy_udp_stream state fd = release (socket fd) ∷ release (context state) ∷ []

-- The `destroy` callback of a context.
unfoldable pub destroy_context : ℕ → StreamState → List Effect
destroy_context state (file_state file_handle path close_on_destroy) =
    destroy_file_stream state file_handle close_on_destroy
destroy_context state (udp_state fd endpoint) = destroy_udp_stream state fd
