-- ===== src/Config.antt =====
-- `mp_logger_config_t` of include/mp_logger.h, its defaults and its validation. A `char[]` member is
-- the C string that it holds.
pub mod Values
pub mod Apply
pub mod Load
use mp_logger.Common.{ℕ, Bool, true, false, not, ◌&&◌, Bytes, codes, ltb, is_empty}
use mp_logger.Text.{copy_trimmed}
use mp_logger.Status.{
  Level, level_trace, level_info, level_warning, level_error, level_fatal, Format, format_json,
}

pub record Config : Type 0 where
  pub service_name : Bytes
  pub environment_name : Bytes
  pub build_version : Bytes
  pub buffer_capacity : ℕ
  pub message_capacity : ℕ
  pub context_capacity : ℕ
  pub field_capacity : ℕ
  pub field_key_capacity : ℕ
  pub field_value_capacity : ℕ
  pub format : Format
  pub pretty_output : Bool
  pub log_directory : Bytes
  pub file_name_prefix : Bytes
  pub backup_file_name_prefix : Bytes
  pub active_streams : Bytes
  pub stdout_min_level : Level
  pub stdout_max_level : Level
  pub stderr_min_level : Level
  pub stderr_max_level : Level
  pub file_min_level : Level
  pub file_max_level : Level
  pub udp_min_level : Level
  pub udp_max_level : Level
  pub udp_host : Bytes
  pub udp_port : ℕ

-- The sizes of the arrays.
abbrev pub name_capacity : ℕ
name_capacity = 64

abbrev pub path_capacity : ℕ
path_capacity = 256

abbrev pub active_streams_capacity : ℕ
active_streams_capacity = 128

abbrev pub host_capacity : ℕ
host_capacity = 128

unfoldable pub config_init_defaults : Config
config_init_defaults = record {
  service_name = copy_trimmed name_capacity (codes "mp-service");
  environment_name = copy_trimmed name_capacity (codes "development");
  build_version = copy_trimmed name_capacity (codes "0.0.0");
  buffer_capacity = 1024;
  message_capacity = 512;
  context_capacity = 1024;
  field_capacity = 8;
  field_key_capacity = 32;
  field_value_capacity = 128;
  format = format_json;
  pretty_output = false;
  log_directory = copy_trimmed path_capacity (codes ".");
  file_name_prefix = copy_trimmed name_capacity (codes "mp-service");
  backup_file_name_prefix = copy_trimmed name_capacity (codes "mp-logger-internal");
  active_streams = copy_trimmed active_streams_capacity (codes "stdout,stderr,file");
  stdout_min_level = level_trace;
  stdout_max_level = level_info;
  stderr_min_level = level_warning;
  stderr_max_level = level_fatal;
  file_min_level = level_trace;
  file_max_level = level_fatal;
  udp_min_level = level_error;
  udp_max_level = level_fatal;
  udp_host = copy_trimmed host_capacity (codes "127.0.0.1");
  udp_port = 5514;
}

unfoldable pub validate_config : Config → Bool
validate_config c =
    ltb 0 c.buffer_capacity
    && ltb 1 c.message_capacity
    && ltb 1 c.context_capacity
    && ltb 0 c.field_capacity
    && ltb 1 c.field_key_capacity
    && ltb 1 c.field_value_capacity
    && not (is_empty c.service_name)
    && not (is_empty c.environment_name)
    && not (is_empty c.build_version)
    && not (is_empty c.file_name_prefix)
    && not (is_empty c.backup_file_name_prefix)
    && not (is_empty c.log_directory)
