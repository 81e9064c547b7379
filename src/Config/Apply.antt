-- ===== src/Config/Apply.antt =====
-- `mp_logger_config_apply_override` and the functions below it in src/mp_logger_bootstrap.c. Each
-- returns the status and the configuration, which an error leaves as it was.
pub mod Bounds
use mp_logger.Common.{ℕ, Bool, Option, none, some, Bytes, codes, if◌then◌else◌, str_eq, is_empty}
use mp_logger.Text.{is_build_version_valid, copy_trimmed, unquote_scalar}
use mp_logger.Status.{Status, status_ok, invalid_argument, config_error, Level}
use mp_logger.Config.{Config, name_capacity, path_capacity, active_streams_capacity, host_capacity}
use mp_logger.Config.Values.{
  parse_bool, parse_level_name, parse_format_name, parse_size_value, parse_port_value,
}

-- A parsed value is stored, a refused one is a configuration error.
abbrev pub store {ℓ} : {A : Type ℓ} → Config → (A → Config) → Option A → Status × Config
store c write none = (config_error, c)
store c write (some a) = (status_ok, write a)

unfoldable pub apply_root_value : Bytes → Bytes → Config → Status × Config
apply_root_value key value c =
    if str_eq key (codes "service_name")
    then (status_ok, record c { service_name = copy_trimmed name_capacity value })
    else if str_eq key (codes "environment_name")
    then (status_ok, record c { environment_name = copy_trimmed name_capacity value })
    else if str_eq key (codes "build_version")
    then (if is_build_version_valid value
        then (status_ok, record c { build_version = copy_trimmed name_capacity value })
        else (config_error, c))
    else (config_error, c)

unfoldable pub apply_logger_value : Bytes → Bytes → Config → Status × Config
apply_logger_value key value c =
    if str_eq key (codes "buffer_capacity")
    then store c (λ n. record c { buffer_capacity = n }) (parse_size_value value)
    else if str_eq key (codes "message_capacity")
    then store c (λ n. record c { message_capacity = n }) (parse_size_value value)
    else if str_eq key (codes "context_capacity")
    then store c (λ n. record c { context_capacity = n }) (parse_size_value value)
    else if str_eq key (codes "field_capacity")
    then store c (λ n. record c { field_capacity = n }) (parse_size_value value)
    else if str_eq key (codes "field_key_capacity")
    then store c (λ n. record c { field_key_capacity = n }) (parse_size_value value)
    else if str_eq key (codes "field_value_capacity")
    then store c (λ n. record c { field_value_capacity = n }) (parse_size_value value)
    else if str_eq key (codes "format")
    then store c (λ f. record c { format = f }) (parse_format_name value)
    else if str_eq key (codes "pretty_output")
    then store c (λ b. record c { pretty_output = b }) (parse_bool value)
    else if str_eq key (codes "log_directory")
    then (status_ok, record c { log_directory = copy_trimmed path_capacity value })
    else if str_eq key (codes "file_name_prefix")
    then (status_ok, record c { file_name_prefix = copy_trimmed name_capacity value })
    else if str_eq key (codes "backup_file_name_prefix")
    then (status_ok, record c { backup_file_name_prefix = copy_trimmed name_capacity value })
    else if str_eq key (codes "active_streams")
    then (status_ok, record c { active_streams = copy_trimmed active_streams_capacity value })
    else (config_error, c)

unfoldable pub apply_stdout_value : Bytes → Bytes → Config → Status × Config
apply_stdout_value key value c =
    if str_eq key (codes "minimum_level")
    then store c (λ l. record c { stdout_min_level = l }) (parse_level_name value)
    else if str_eq key (codes "maximum_level")
    then store c (λ l. record c { stdout_max_level = l }) (parse_level_name value)
    else (config_error, c)

unfoldable pub apply_stderr_value : Bytes → Bytes → Config → Status × Config
apply_stderr_value key value c =
    if str_eq key (codes "minimum_level")
    then store c (λ l. record c { stderr_min_level = l }) (parse_level_name value)
    else if str_eq key (codes "maximum_level")
    then store c (λ l. record c { stderr_max_level = l }) (parse_level_name value)
    else (config_error, c)

unfoldable pub apply_file_value : Bytes → Bytes → Config → Status × Config
apply_file_value key value c =
    if str_eq key (codes "minimum_level")
    then store c (λ l. record c { file_min_level = l }) (parse_level_name value)
    else if str_eq key (codes "maximum_level")
    then store c (λ l. record c { file_max_level = l }) (parse_level_name value)
    else (config_error, c)

unfoldable pub apply_udp_value : Bytes → Bytes → Config → Status × Config
apply_udp_value key value c =
    if str_eq key (codes "minimum_level")
    then store c (λ l. record c { udp_min_level = l }) (parse_level_name value)
    else if str_eq key (codes "maximum_level")
    then store c (λ l. record c { udp_max_level = l }) (parse_level_name value)
    else if str_eq key (codes "host")
    then (status_ok, record c { udp_host = copy_trimmed host_capacity value })
    else if str_eq key (codes "port")
    then store c (λ p. record c { udp_port = p }) (parse_port_value value)
    else (config_error, c)

unfoldable pub apply_value : Bytes → Bytes → Bytes → Config → Status × Config
apply_value section key value c =
    if str_eq section (codes "")
    then apply_root_value key value c
    else if str_eq section (codes "logger")
    then apply_logger_value key value c
    else if str_eq section (codes "stdout")
    then apply_stdout_value key value c
    else if str_eq section (codes "stderr")
    then apply_stderr_value key value c
    else if str_eq section (codes "file")
    then apply_file_value key value c
    else if str_eq section (codes "udp")
    then apply_udp_value key value c
    else (config_error, c)

abbrev pub section_capacity : ℕ
section_capacity = 32

abbrev pub key_capacity : ℕ
key_capacity = 64

abbrev pub value_capacity : ℕ
value_capacity = 256

-- What a NULL section stands for.
abbrev section_or_root : Option Bytes → Bytes
section_or_root none = codes ""
section_or_root (some section) = section

-- `none` is a NULL pointer; the configuration to override is there.
unfoldable pub config_apply_override :
    Config → Option Bytes → Option Bytes → Option Bytes → Status × Config
config_apply_override c section none value = (invalid_argument, c)
config_apply_override c section (some key) none = (invalid_argument, c)
config_apply_override c section (some key) (some value) =
    let normalized_section = copy_trimmed section_capacity (section_or_root section) in
    let normalized_key = copy_trimmed key_capacity key in
    let normalized_value = unquote_scalar (copy_trimmed value_capacity value) in
    if is_empty normalized_key
    then (config_error, c)
    else apply_value normalized_section normalized_key normalized_value c
