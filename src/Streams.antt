-- ===== src/Streams.antt =====
-- The stream table of src/mp_logger.c: registration, level masks and runtime configuration. A call
-- holds `stream_mutex` for its whole work on the table, so it is one step.
pub mod Mask
pub mod Coherence
pub mod Configure
use Prim.Native.Nat.{bit_or, bit_and}
use mp_logger.Common.{
  ℕ, zero, suc, ◌+◌, ◌-◌, ◌^◌, Bool, true, false, not, ◌&&◌, ◌||◌, List, [], ◌∷◌, ◌++◌, Option,
  none, some, Bytes, codes, ltb, leb, ◌==◌, if◌then◌else◌, length, str_eq, is_empty,
}
use mp_logger.Text.{copy_trimmed, sanitize_file_component}
use mp_logger.Status.{
  Status, status_ok, invalid_argument, config_error, limit_exceeded, Level, level_trace,
  level_fatal,
}
use mp_logger.Config.{Config, name_capacity, validate_config}
use mp_logger.Logger.{Stream, Logger}

abbrev pub max_streams : ℕ
max_streams = 8

unfoldable pub level_in_range : Level → Level → Level → Bool
level_in_range level minimum maximum = leb minimum level && leb level maximum

-- The loop of `mp_logger_level_range_mask`, for the rounds left. A level is at most 5, so no bit
-- is shifted out.
unfoldable pub mask_from : ℕ → Level → ℕ → ℕ
mask_from zero level mask = mask
mask_from (suc rounds) level mask = mask_from rounds (level + 1) (bit_or mask (2 ^ level))

-- The enumeration is unsigned, so no level is below `MP_LOG_LEVEL_TRACE`.
unfoldable pub level_range_mask : Level → Level → ℕ
level_range_mask minimum maximum =
    if ltb minimum level_trace || ltb level_fatal maximum || ltb maximum minimum
    then 0
    else mask_from (maximum + 1 - minimum) minimum 0

-- The loop of `mp_logger_refresh_enabled_level_mask`.
unfoldable pub streams_mask : List Stream → ℕ → ℕ
streams_mask [] mask = mask
streams_mask (s ∷ streams) mask =
    streams_mask streams (bit_or mask (level_range_mask s.minimum_level s.maximum_level))

unfoldable pub refresh_enabled_level_mask : Logger → Logger
refresh_enabled_level_mask l = record l { enabled_level_mask = streams_mask l.streams 0 }

-- The comparison of two configurations by `mp_logger_runtime_config_is_compatible`.
unfoldable pub runtime_config_is_compatible : Logger → Config → Bool
runtime_config_is_compatible l c =
    l.config.buffer_capacity == c.buffer_capacity
    && l.config.message_capacity == c.message_capacity
    && l.config.context_capacity == c.context_capacity
    && l.config.field_capacity == c.field_capacity
    && l.config.field_key_capacity == c.field_key_capacity
    && l.config.field_value_capacity == c.field_value_capacity
    && str_eq l.config.log_directory c.log_directory
    && str_eq l.config.file_name_prefix c.file_name_prefix
    && str_eq l.config.backup_file_name_prefix c.backup_file_name_prefix
    && str_eq l.config.active_streams c.active_streams
    && str_eq l.config.udp_host c.udp_host
    && l.config.udp_port == c.udp_port

-- One round of the loop of `mp_logger_apply_config_to_streams`.
unfoldable pub retarget : Config → Stream → Stream
retarget c s =
    if str_eq s.stream_name (codes "stdout")
    then record s { minimum_level = c.stdout_min_level; maximum_level = c.stdout_max_level }
    else if str_eq s.stream_name (codes "stderr")
    then record s { minimum_level = c.stderr_min_level; maximum_level = c.stderr_max_level }
    else if str_eq s.stream_name (codes "file")
    then record s { minimum_level = c.file_min_level; maximum_level = c.file_max_level }
    else if str_eq s.stream_name (codes "udp")
    then record s { minimum_level = c.udp_min_level; maximum_level = c.udp_max_level }
    else s

unfoldable pub retarget_all : Config → List Stream → List Stream
retarget_all c [] = []
retarget_all c (s ∷ streams) = retarget c s ∷ retarget_all c streams

unfoldable pub apply_config_to_streams : Logger → Logger
apply_config_to_streams l =
    refresh_enabled_level_mask (record l { streams = retarget_all l.config l.streams })

-- Whether a stream of this name is registered.
unfoldable pub has_name : Bytes → List Stream → Bool
has_name name [] = false
has_name name (s ∷ streams) = str_eq s.stream_name name || has_name name streams

-- `none` is a NULL pointer.
unfoldable pub add_owned_stream : Logger → Option Stream → Status × Logger
add_owned_stream l none = (invalid_argument, l)
add_owned_stream l (some s) =
    if not s.has_write || is_empty s.stream_name
    then (invalid_argument, l)
    else if leb max_streams (length l.streams)
    then (limit_exceeded, l)
    else if has_name s.stream_name l.streams
    then (config_error, l)
    else (
      status_ok,
      record l {
        streams = l.streams ++ (s ∷ []);
        enabled_level_mask =
            bit_or l.enabled_level_mask (level_range_mask s.minimum_level s.maximum_level);
      },
    )

-- `mp_logger_add_stream`
unfoldable pub add_stream : Logger → Option Stream → Status × Logger
add_stream = add_owned_stream

-- The copy of a configuration with file-safe prefixes.
unfoldable pub normalize_config : Config → Config
normalize_config c = record c {
  file_name_prefix = sanitize_file_component c.file_name_prefix;
  backup_file_name_prefix = sanitize_file_component c.backup_file_name_prefix;
}

-- The members that a running logger takes over.
unfoldable pub take_over : Config → Config → Config
take_over c n = record c {
  service_name = copy_trimmed name_capacity n.service_name;
  environment_name = copy_trimmed name_capacity n.environment_name;
  build_version = copy_trimmed name_capacity n.build_version;
  format = n.format;
  pretty_output = n.pretty_output;
  stdout_min_level = n.stdout_min_level;
  stdout_max_level = n.stdout_max_level;
  stderr_min_level = n.stderr_min_level;
  stderr_max_level = n.stderr_max_level;
  file_min_level = n.file_min_level;
  file_max_level = n.file_max_level;
  udp_min_level = n.udp_min_level;
  udp_max_level = n.udp_max_level;
}

unfoldable pub configure : Logger → Option Config → Status × Logger
configure l none = (invalid_argument, l)
configure l (some c) =
    if not (validate_config c)
    then (config_error, l)
    else let n = normalize_config c in
      if not (runtime_config_is_compatible l n)
      then (config_error, l)
      else (status_ok, apply_config_to_streams (record l { config = take_over l.config n }))

-- `mp_logger_get_config`
unfoldable pub get_config : Logger → Status × Config
get_config l = (status_ok, l.config)

-- The loop of `mp_logger_destroy_streams`: the contexts that are handed to a `destroy` callback.
unfoldable pub destroyed : List Stream → List ℕ
destroyed [] = []
destroyed (s ∷ streams) =
    let rest = destroyed streams in if s.has_destroy then s.stream_context ∷ rest else rest

unfoldable pub destroy_streams : Logger → List ℕ × Logger
destroy_streams l = (destroyed l.streams, record l { streams = []; enabled_level_mask = 0 })

unfoldable pub is_level_enabled : Option Logger → Level → Bool
is_level_enabled none level = false
is_level_enabled (some l) level =
    if l.shutdown_requested || ltb level level_trace || ltb level_fatal level
    then false
    else not (bit_and l.enabled_level_mask (2 ^ level) == 0)
