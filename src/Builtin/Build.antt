-- ===== src/Builtin/Build.antt =====
-- `mp_logger_build_builtin_streams` of src/mp_logger_streams.c.
use mp_logger.Common.{
  ℕ, suc, List, [], ◌∷◌, ◌++◌, Option, none, some, Bytes, codes, if◌then◌else◌, str_eq,
}
use mp_logger.Status.{Status, status_ok, config_error, level_name, level_warning}
use mp_logger.Logger.{Stream, Logger}
use mp_logger.Streams.{max_streams, add_owned_stream}
use mp_logger.Backup.{Notice}
use mp_logger.Builtin.{
  StreamState, Effect, Answers, Made, destroy_context, make_stdio_stream, make_file_stream,
  make_udp_stream, split_stream_list,
}

-- The handles of the standard streams.
abbrev pub stdout_handle : ℕ
stdout_handle = 1

abbrev pub stderr_handle : ℕ
stderr_handle = 2

-- The choice of the maker by name; `none` for another name.
unfoldable pub make_named : Answers → Logger → Bytes → Option Made
make_named answers l name =
    if str_eq name (codes "stdout")
    then some (
        make_stdio_stream answers.calloc (codes "stdout") stdout_handle l.config.stdout_min_level
          l.config.stdout_max_level)
    else if str_eq name (codes "stderr")
    then some (
        make_stdio_stream answers.calloc (codes "stderr") stderr_handle l.config.stderr_min_level
          l.config.stderr_max_level)
    else if str_eq name (codes "file")
    then some (make_file_stream answers l)
    else if str_eq name (codes "udp")
    then some (make_udp_stream answers l)
    else none

-- What the loop does: its result, the logger, the calls of `mp_logger_backup_write`, the effects, and
-- what the contexts of the streams that it has registered hold.
pub record Built : Type 0 where
  pub result : Status
  pub logger : Logger
  pub notices : List Notice
  pub effects : List Effect
  pub owned : List (ℕ × StreamState)

abbrev pub init_failure : Notice
init_failure = record {
  severity = level_name level_warning;
  notice = codes "builtin stream initialization failed";
}

-- A stream that has been made is destroyed where its registration has failed.
unfoldable pub settle : Status → Logger → Stream → StreamState → Built
settle status_ok l stream state = record {
  result = status_ok;
  logger = l;
  notices = [];
  effects = [];
  owned = (stream.stream_context, state) ∷ [];
}
settle fault l stream state = record {
  result = fault;
  logger = l;
  notices = [];
  effects = destroy_context stream.stream_context state;
  owned = [];
}

unfoldable pub register_made : Logger → Stream → StreamState → Built
register_made l stream state =
    let (result, l') = add_owned_stream l (some stream) in settle result l' stream state

-- One round of the loop, behind the maker; a result other than OK ends the loop.
unfoldable pub finish_round : Option (Stream × StreamState) → List Effect → Logger → Built
finish_round none effects l = record {
  result = status_ok;
  logger = l;
  notices = init_failure ∷ [];
  effects = effects;
  owned = [];
}
finish_round (some (stream, state)) effects l =
    let done = register_made l stream state in record done { effects = effects ++ done.effects }

unfoldable pub build_round : Option Made → Logger → Built
build_round none l = record {
  result = config_error;
  logger = l;
  notices = [];
  effects = [];
  owned = [];
}
build_round (some made) l = finish_round made.stream made.effects l

-- A round and the rounds behind it.
abbrev pub joined_built : Built → Built → Built
joined_built round rest = record {
  result = rest.result;
  logger = rest.logger;
  notices = round.notices ++ rest.notices;
  effects = round.effects ++ rest.effects;
  owned = round.owned ++ rest.owned;
}

-- The rounds behind one, where it goes on.
abbrev pub continued : Status → Built → Built → Built
continued status_ok round rest = joined_built round rest
continued fault round rest = round

-- The loop over the names; `answers` says what the system answers in the round of an index.
unfoldable pub build_names : (ℕ → Answers) → ℕ → List Bytes → Logger → Built
build_names answers index [] l = record {
  result = status_ok;
  logger = l;
  notices = [];
  effects = [];
  owned = [];
}
build_names answers index (name ∷ names) l =
    let round = build_round (make_named (answers index) l name) l in
    continued round.result round (build_names answers (suc index) names round.logger)

unfoldable pub build_builtin_streams : (ℕ → Answers) → Logger → Built
build_builtin_streams answers l = elim (split_stream_list l.config.active_streams max_streams) [
  | none ↦ record { result = config_error; logger = l; notices = []; effects = []; owned = [] }
  | some names ↦ build_names answers 0 names l
]
