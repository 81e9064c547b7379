-- ===== src/Status.antt =====
-- The enumerations of include/mp_logger.h.
use mp_logger.Common.{ℕ, Bytes, codes, ◌==◌, if◌then◌else◌}

-- `mp_log_status_t`
pub data Status : Type 0 where
  status_ok queue_full busy invalid_argument io_error config_error : Status
  not_running internal_error limit_exceeded : Status

-- `mp_log_level_t`. A C enumeration holds any unsigned value, and callers may pass one.
abbrev pub Level : Type 0
Level = ℕ

abbrev pub level_trace : Level
level_trace = 0

abbrev pub level_debug : Level
level_debug = 1

abbrev pub level_info : Level
level_info = 2

abbrev pub level_warning : Level
level_warning = 3

abbrev pub level_error : Level
level_error = 4

abbrev pub level_fatal : Level
level_fatal = 5

-- `mp_log_format_t`
pub data Format : Type 0 where
  format_text format_json : Format

unfoldable pub level_name : Level → Bytes
level_name level =
    if level == level_trace
    then codes "TRACE"
    else if level == level_debug
    then codes "DEBUG"
    else if level == level_info
    then codes "INFO"
    else if level == level_warning
    then codes "WARNING"
    else if level == level_error
    then codes "ERROR"
    else if level == level_fatal
    then codes "FATAL"
    else codes "UNKNOWN"

unfoldable pub status_name : Status → Bytes
status_name status_ok = codes "OK"
status_name queue_full = codes "QUEUE_FULL"
status_name busy = codes "BUSY"
status_name invalid_argument = codes "INVALID_ARGUMENT"
status_name io_error = codes "IO_ERROR"
status_name config_error = codes "CONFIG_ERROR"
status_name not_running = codes "NOT_RUNNING"
status_name internal_error = codes "INTERNAL_ERROR"
status_name limit_exceeded = codes "LIMIT_EXCEEDED"
