-- ===== src/Tests/Config.antt =====
-- Files and overrides.
use mp_logger.Common.{◌≡◌, refl, Option, some, Bytes, codes}
use mp_logger.Common.Lists.{str_eq}
use mp_logger.Text.{
  is_space, c_string, to_lower, equal_ignore_case, trim_start, trim_end, copy_trimmed,
  unquote_scalar,
}
use mp_logger.Status.{status_ok}
use mp_logger.Config.{Config, config_init_defaults}
use mp_logger.Config.Apply.{apply_root_value, apply_value, config_apply_override}
use mp_logger.Config.Apply.Bounds.{IsBounded}
use mp_logger.Config.Load.{
  read_line, read_lines, split_at, last_dot, has_yaml_extension, apply_entry, process_line,
  process_lines, bootstrap_load,
}
use mp_logger.Config.Load.Laws.{bootstrap_load-IsBounded}

abbrev file : Bytes
file = codes "# service\nservice_name: \"api\"\n"

-- A file system with one file.
abbrev files : Bytes → Option Bytes
files path = some file

abbrev loaded : Config
loaded = record config_init_defaults { service_name = codes "api" }

load_file : bootstrap_load files (some (codes "log.yml")) ≡ (status_ok, some loaded)
unfolding bootstrap_load has_yaml_extension last_dot equal_ignore_case to_lower read_lines read_line
    process_lines process_line apply_entry config_apply_override apply_value apply_root_value str_eq
    copy_trimmed trim_start trim_end is_space c_string split_at unquote_scalar
load_file = refl

bootstrap_load-IsBounded_example : IsBounded loaded
bootstrap_load-IsBounded_example = bootstrap_load-IsBounded files (some (codes "log.yml")) load_file
