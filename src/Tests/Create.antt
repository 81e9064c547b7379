-- ===== src/Tests/Create.antt =====
-- A logger that is created from a configuration file, with the answers of a system that grants all but
-- the name of the UDP host.
use native.Mathlib.Omega.{arith}
use mp_logger.Common.{
  ℕ, ◌+◌, ◌≡◌, refl, true, [], ◌∷◌, Bytes, codes, Option, none, some, length, if◌then◌else◌, leb,
}
use mp_logger.Config.{Config, config_init_defaults}
use mp_logger.Text.{copy_trimmed, trim_start, trim_end, is_space}
use mp_logger.Streams.Configure.{HasBuiltinLevels}
use mp_logger.Files.{Directory, made, make_stream_path}
use mp_logger.Files.StreamPath.{stream_path, make_stream_path_lem}
use mp_logger.Storage.{parts, requests}
use mp_logger.Storage.Parts.{ArePartsApart, parts_lem}
use mp_logger.Builtin.{Answers, Resource, socket, Effect, split_stream_list}
use mp_logger.Builtin.Build.{build_builtin_streams}
use mp_logger.Builtin.Resources.{acquired, released, destroy_all, build_builtin_streams-IsBalanced}
use mp_logger.Builtin.Table.{IsBuiltOn, build_builtin_streams-IsBuiltOn}
use mp_logger.Builtin.Split.{IsSplit, listed_names, split_stream_list_lem}
use mp_logger.Create.{Creation, create, create_from_bootstrap}
use mp_logger.Create.Outcome.{IsOutcome, create_lem}
use mp_logger.Create.Prefixes.{HasSafePrefixes}
use mp_logger.Create.Bootstrap.{IsStarted, create_from_bootstrap_lem}
use mp_logger.Tests.Samples.{two_slots, small_config}
use mp_logger.Tests.Streams.{two_slots-IsCoherent}

abbrev directory : Directory
directory = record { first_stat = none; mkdir = made; second_stat = none }

abbrev no_host : ℕ → Answers
no_host index = record {
  calloc = some (100 + index);
  directory = directory;
  fopen = λ path. some (20 + index);
  getaddrinfo = λ host port. none;
  open_socket = some 9;
}

abbrev grants : Creation
grants = record {
  allocated = true;
  run_time = some (codes "20260101T000000Z");
  blocks = record {
    slots = true;
    message_storage = true;
    context_storage = true;
    field_storage = true;
    field_key_storage = true;
    field_string_storage = true;
  };
  backup_directory = directory;
  open_backup = λ path. some 3;
  streams = no_host;
  join = record { clock = none; timed_join = λ deadline. true; join = true };
}

abbrev one_file : Bytes → Option Bytes
one_file path = some (codes "logger:\n  active_streams: file,udp\n  buffer_capacity: 4\n")

create_from_bootstrap_lem_example :
    IsStarted (create_from_bootstrap one_file (some (codes "logger.yaml")) grants true)
create_from_bootstrap_lem_example =
    create_from_bootstrap_lem one_file (some (codes "logger.yaml")) grants true

small_config-HasBuiltinLevels : HasBuiltinLevels small_config
unfolding config_init_defaults
small_config-HasBuiltinLevels = record {
  stdout_level = omega arith;
  stderr_level = omega arith;
  file_level = omega arith;
  udp_level = omega arith;
}

create_lem_example :
    (given : Config) × HasSafePrefixes small_config given
    × IsOutcome given (create grants (some small_config) true)
create_lem_example = create_lem grants small_config true (omega arith) small_config-HasBuiltinLevels

build_builtin_streams-IsBalanced_example :
    let done = build_builtin_streams no_host two_slots in
    acquired (socket 9) done.effects
    ≡ released (socket 9) done.effects + released (socket 9) (destroy_all done.owned)
build_builtin_streams-IsBalanced_example =
    build_builtin_streams-IsBalanced no_host two_slots (socket 9)

build_builtin_streams-IsBuiltOn_example :
    IsBuiltOn two_slots (build_builtin_streams no_host two_slots)
build_builtin_streams-IsBuiltOn_example =
    build_builtin_streams-IsBuiltOn no_host two_slots two_slots-IsCoherent
      small_config-HasBuiltinLevels

split_stream_list_lem_example :
    IsSplit 8
      (listed_names (copy_trimmed 128 (codes " stdout, ,file,")))
      (split_stream_list (codes " stdout, ,file,") 8)
split_stream_list_lem_example = split_stream_list_lem (codes " stdout, ,file,") 8

parts_lem_example :
    ArePartsApart small_config
      (requests 96 40 small_config)
      (parts small_config 0)
      (parts small_config 1)
parts_lem_example =
    parts_lem 96 40 small_config 0 1
      (record {
        message_small = omega arith;
        context_small = omega arith;
        fields_small = omega arith;
        keys_small = omega arith;
        values_small = omega arith;
      })
      (omega arith) (omega arith)

make_stream_path_lem_example :
    make_stream_path 256 (codes "logs") (codes "app") (codes "20260101T000000Z") ≡ (
      if leb 256 (length (stream_path (codes "logs") (codes "app") (codes "20260101T000000Z")))
      then none
      else some (stream_path (codes "logs") (codes "app") (codes "20260101T000000Z")))
make_stream_path_lem_example =
    make_stream_path_lem 256 (codes "logs") (codes "app") (codes "20260101T000000Z") (omega arith)
      (omega arith)

-- The parts of a list with blanks and empty parts.
split_parts_test :
    split_stream_list (codes " stdout, ,file,") 8 ≡ some (codes "stdout" ∷ codes "file" ∷ [])
unfolding mp_logger.Builtin.split_stream_list mp_logger.Builtin.split_rounds
    mp_logger.Builtin.before_comma mp_logger.Builtin.after_comma mp_logger.Builtin.keep_name
    copy_trimmed trim_start trim_end is_space
split_parts_test = refl
