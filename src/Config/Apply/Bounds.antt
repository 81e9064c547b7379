-- ===== src/Config/Apply/Bounds.antt =====
-- Every member of a configuration stays in the range of its C type and array, whatever overrides are
-- applied to it.
use mp_logger.Common.{
  ℕ, ◌≤◌, ◌<◌, ◌≡◌, refl, inl, inr, Bool, true, false, Option, none, some, arith, Bytes, codes,
  str_eq, Bool-cases, if◌then◌else◌, size_mod, length,
}
use mp_logger.Text.{is_space, trim_start, trim_end, copy_trimmed}
use mp_logger.Text.Trim.{length-copy_trimmed}
use mp_logger.Status.{Status, Level, level_fatal}
use mp_logger.Config.{
  Config, config_init_defaults, name_capacity, path_capacity, active_streams_capacity,
  host_capacity,
}
use mp_logger.Config.Values.{
  uint16_max, parse_level_name, parse_format_name, parse_bool, parse_size_value, parse_port_value,
}
use mp_logger.Config.Apply.{
  store, apply_root_value, apply_logger_value, apply_stdout_value, apply_stderr_value,
  apply_file_value, apply_udp_value, apply_value, config_apply_override,
}

-- The texts fit their arrays with the NUL, the sizes fit `size_t`, the port fits `uint16_t`, and the
-- level bounds are levels.
pub record IsBounded (c : Config) : Type 0 where
  pub service_name_fits : length c.service_name < name_capacity
  pub environment_name_fits : length c.environment_name < name_capacity
  pub build_version_fits : length c.build_version < name_capacity
  pub buffer_capacity_fits : c.buffer_capacity < size_mod
  pub message_capacity_fits : c.message_capacity < size_mod
  pub context_capacity_fits : c.context_capacity < size_mod
  pub field_capacity_fits : c.field_capacity < size_mod
  pub field_key_capacity_fits : c.field_key_capacity < size_mod
  pub field_value_capacity_fits : c.field_value_capacity < size_mod
  pub log_directory_fits : length c.log_directory < path_capacity
  pub file_name_prefix_fits : length c.file_name_prefix < name_capacity
  pub backup_file_name_prefix_fits : length c.backup_file_name_prefix < name_capacity
  pub active_streams_fits : length c.active_streams < active_streams_capacity
  pub udp_host_fits : length c.udp_host < host_capacity
  pub udp_port_fits : c.udp_port ≤ uint16_max
  pub stdout_min_is_level : c.stdout_min_level ≤ level_fatal
  pub stdout_max_is_level : c.stdout_max_level ≤ level_fatal
  pub stderr_min_is_level : c.stderr_min_level ≤ level_fatal
  pub stderr_max_is_level : c.stderr_max_level ≤ level_fatal
  pub file_min_is_level : c.file_min_level ≤ level_fatal
  pub file_max_is_level : c.file_max_level ≤ level_fatal
  pub udp_min_is_level : c.udp_min_level ≤ level_fatal
  pub udp_max_is_level : c.udp_max_level ≤ level_fatal

parse_size_value-lt : (value : Bytes) (n : ℕ) → parse_size_value value ≡ some n → n < size_mod
unfolding parse_size_value
parse_size_value-lt value n h = ground arith

parse_port_value-le : (value : Bytes) (n : ℕ) → parse_port_value value ≡ some n → n ≤ uint16_max
unfolding parse_port_value
parse_port_value-le value n h = ground arith

pub parse_level_name-le :
    (value : Bytes) (l : Level) → parse_level_name value ≡ some l → l ≤ level_fatal
unfolding parse_level_name
parse_level_name-le value l h = ground arith

-- A value that is stored keeps the bounds if every value that its parser returns does.
store-IsBounded {ℓ} :
    {A : Type ℓ} (c : Config) (write : A → Config) (parsed : Option A)
    → IsBounded c
    → ((a : A) → parsed ≡ some a → IsBounded (write a))
    → IsBounded (store c write parsed).1
store-IsBounded c write none b h = b
store-IsBounded c write (some a) b h = h a refl

either :
    (t : Bool) (x y : Status × Config)
    → IsBounded x.1
    → IsBounded y.1
    → IsBounded (if t then x else y).1
either true x y hx hy = hx
either false x y hx hy = hy

ruleset value_bounds =
    (arith, parse_size_value-lt, parse_port_value-le, parse_level_name-le, length-copy_trimmed)

module _ (key value : Bytes) {c : Config} (b : IsBounded c) where
  apply_root_value-IsBounded : IsBounded (apply_root_value key value c).1
  unfolding apply_root_value
  apply_root_value-IsBounded = ground (arith, length-copy_trimmed name_capacity value)

  apply_stdout_value-IsBounded : IsBounded (apply_stdout_value key value c).1
  unfolding apply_stdout_value
  apply_stdout_value-IsBounded = grind value_bounds

  apply_stderr_value-IsBounded : IsBounded (apply_stderr_value key value c).1
  unfolding apply_stderr_value
  apply_stderr_value-IsBounded = grind value_bounds

  apply_file_value-IsBounded : IsBounded (apply_file_value key value c).1
  unfolding apply_file_value
  apply_file_value-IsBounded = grind value_bounds

  apply_udp_value-IsBounded : IsBounded (apply_udp_value key value c).1
  unfolding apply_udp_value
  apply_udp_value-IsBounded = grind value_bounds

  apply_logger_value-IsBounded : IsBounded (apply_logger_value key value c).1
  unfolding apply_logger_value
  apply_logger_value-IsBounded =
      let log_directory_fits : IsBounded
          (record c { log_directory = copy_trimmed path_capacity value }) =
        omega (arith, length-copy_trimmed path_capacity value) in
      let file_name_prefix_fits : IsBounded
          (record c { file_name_prefix = copy_trimmed name_capacity value }) =
        omega (arith, length-copy_trimmed name_capacity value) in
      let backup_file_name_prefix_fits : IsBounded
          (record c { backup_file_name_prefix = copy_trimmed name_capacity value }) =
        omega (arith, length-copy_trimmed name_capacity value) in
      let active_streams_fits : IsBounded
          (record c { active_streams = copy_trimmed active_streams_capacity value }) =
        omega (arith, length-copy_trimmed active_streams_capacity value) in
      elim (Bool-cases (str_eq key (codes "buffer_capacity"))) [
        | inl e ↦ rw e (size (λ n. record c { buffer_capacity = n }) λ n h. omega arith)
        | inr e ↦ rw e (elim (Bool-cases (str_eq key (codes "message_capacity"))) [
          | inl e ↦ rw e (size (λ n. record c { message_capacity = n }) λ n h. omega arith)
          | inr e ↦ rw e (elim (Bool-cases (str_eq key (codes "context_capacity"))) [
            | inl e ↦ rw e (size (λ n. record c { context_capacity = n }) λ n h. omega arith)
            | inr e ↦ rw e (elim (Bool-cases (str_eq key (codes "field_capacity"))) [
              | inl e ↦ rw e (size (λ n. record c { field_capacity = n }) λ n h. omega arith)
              | inr e ↦ rw e (elim (Bool-cases (str_eq key (codes "field_key_capacity"))) [
                | inl e ↦ rw e (size (λ n. record c { field_key_capacity = n }) λ n h. omega arith)
                | inr e ↦ rw e (elim (Bool-cases (str_eq key (codes "field_value_capacity"))) [
                  | inl e ↦
                      rw e (size (λ n. record c { field_value_capacity = n }) λ n h. omega arith)
                  | inr e ↦ rw e (elim (Bool-cases (str_eq key (codes "format"))) [
                    | inl e ↦ rw e (
                        store-IsBounded c (λ f. record c { format = f }) (parse_format_name value) b
                          λ f h. omega arith)
                    | inr e ↦ rw e (elim (Bool-cases (str_eq key (codes "pretty_output"))) [
                      | inl e ↦ rw e (
                          store-IsBounded c (λ p. record c { pretty_output = p }) (parse_bool value)
                            b λ f h. omega arith)
                      | inr e ↦ rw e (elim (Bool-cases (str_eq key (codes "log_directory"))) [
                        | inl e ↦ rw e (log_directory_fits)
                        | inr e ↦ rw e (elim (Bool-cases (str_eq key (codes "file_name_prefix"))) [
                          | inl e ↦ rw e (file_name_prefix_fits)
                          | inr e ↦
                              rw e
                                (elim (Bool-cases (str_eq key (codes "backup_file_name_prefix"))) [
                                  | inl e ↦ rw e (backup_file_name_prefix_fits)
                                  | inr e ↦
                                      rw e
                                        (elim (Bool-cases (str_eq key (codes "active_streams"))) [
                                          | inl e ↦ rw e (active_streams_fits)
                                          | inr e ↦ rw e (b)
                                        ])
                                ])
                        ])
                      ])
                    ])
                  ])
                ])
              ])
            ])
          ])
        ])
      ]
    where
      size :
          (write : ℕ → Config)
          → ((n : ℕ) → n < size_mod → IsBounded (write n))
          → IsBounded (store c write (parse_size_value value)).1
      size write h =
          store-IsBounded c write (parse_size_value value) b
            (λ n e. h n (parse_size_value-lt value n e))

  apply_value-IsBounded : (section : Bytes) → IsBounded (apply_value section key value c).1
  unfolding apply_value
  apply_value-IsBounded section = ground (
    arith, apply_root_value-IsBounded, apply_logger_value-IsBounded, apply_stdout_value-IsBounded,
    apply_stderr_value-IsBounded, apply_file_value-IsBounded, apply_udp_value-IsBounded,
  )

-- The documented defaults are in range.
pub config_init_defaults-IsBounded : IsBounded config_init_defaults
unfolding config_init_defaults copy_trimmed trim_start trim_end is_space
config_init_defaults-IsBounded = omega arith

-- From a configuration whose members are in range, an override, accepted or refused, keeps every member in range.
pub config_apply_override-IsBounded :
    (section key value : Option Bytes) {c : Config}
    → IsBounded c
    → IsBounded (config_apply_override c section key value).1
unfolding config_apply_override
config_apply_override-IsBounded section none value b = b
config_apply_override-IsBounded section (some key) none b = b
config_apply_override-IsBounded section (some key) (some value) b =
    either _ _ _ b (apply_value-IsBounded _ _ b _)
