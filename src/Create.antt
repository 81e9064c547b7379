-- ===== src/Create.antt =====
-- The construction and the destruction of a logger in src/mp_logger.c.
pub mod Ready
pub mod Prefixes
pub mod Outcome
pub mod Bootstrap
use mp_logger.Common.{
  ℕ, ◌+◌, Bool, true, false, not, List, [], ◌∷◌, Option, none, some, Bytes, codes, if◌then◌else◌,
  add_size,
}
use mp_logger.Status.{Status, status_ok, invalid_argument, io_error, config_error}
use mp_logger.Config.{Config, validate_config}
use mp_logger.Config.Load.{bootstrap_load}
use mp_logger.Logger.{Logger}
use mp_logger.Streams.{normalize_config, destroy_streams}
use mp_logger.Files.{Directory, make_run_suffix}
use mp_logger.Storage.{mul_size, Blocks, allocate_buffers}
use mp_logger.Backup.{Notice, backup_open, backup_close}
use mp_logger.Builtin.{StreamState, Effect, Answers}
use mp_logger.Builtin.Build.{Built, build_builtin_streams}
use mp_logger.Lifecycle.{Join, start, shutdown}

-- What `mp_logger_destroy` hands to `destroy` callbacks and closes, and whether the worker still runs
-- when it frees the logger.
pub record Destroyed : Type 0 where
  pub contexts : List ℕ
  pub descriptors : List ℕ
  pub worker_runs : Bool

unfoldable pub destroy : Join → Logger → Destroyed
destroy answers l =
    let stopped = if l.worker_started then (shutdown answers 5000 l).1 else l in
    let (contexts, cleared) = destroy_streams stopped in
    let (descriptors, closed) = backup_close cleared in
    record { contexts = contexts; descriptors = descriptors; worker_runs = closed.worker_started }

-- What the system answers while a logger is created: to the `calloc` of the logger, with the text of
-- the time, to those of its blocks, to the calls for the backup file and for the built-in streams,
-- and when a worker is joined.
pub record Creation : Type 0 where
  pub allocated : Bool
  pub run_time : Option Bytes
  pub blocks : Blocks
  pub backup_directory : Directory
  pub open_backup : Bytes → Option ℕ
  pub streams : ℕ → Answers
  pub join : Join

-- The status, `*out_logger` where it is set, what the construction of the built-in streams has done,
-- and what was destroyed.
pub record Created : Type 0 where
  pub result : Status
  pub logger : Option Logger
  pub notices : List Notice
  pub effects : List Effect
  pub owned : List (ℕ × StreamState)
  pub undone : Option Destroyed

abbrev number_text_capacity : ℕ
number_text_capacity = 64

abbrev render_padding : ℕ
render_padding = 384

unfoldable pub render_capacity_of : Config → ℕ
render_capacity_of c =
    add_size
      (add_size (add_size c.message_capacity c.context_capacity) (
        mul_size c.field_capacity
          (add_size (add_size c.field_key_capacity c.field_value_capacity) number_text_capacity)))
      render_padding

-- The logger before its blocks are allocated.
unfoldable pub blank_logger : Option Bytes → Config → Logger
blank_logger run_time c = record {
  config = c;
  run_suffix = make_run_suffix run_time;
  slots = [];
  queue_head = 0;
  queue_tail = 0;
  queue_count = 0;
  worker_started = false;
  shutdown_requested = false;
  streams = [];
  render_capacity = render_capacity_of c;
  backup_fd = none;
  backup_path = codes "";
  queued_records_total = 0;
  processed_records_total = 0;
  dropped_busy_total = 0;
  dropped_full_total = 0;
  enabled_level_mask = 0;
}

abbrev pub refused : Status → Option Destroyed → Created
refused fault undone = record {
  result = fault;
  logger = none;
  notices = [];
  effects = [];
  owned = [];
  undone = undone;
}

-- The last stage, by the status of the construction of the built-in streams.
abbrev pub finish_create : Join → Status → Built → Created
finish_create answers status_ok done = record {
  result = status_ok;
  logger = some done.logger;
  notices = done.notices;
  effects = done.effects;
  owned = done.owned;
  undone = none;
}
finish_create answers fault done = record {
  result = fault;
  logger = none;
  notices = done.notices;
  effects = done.effects;
  owned = done.owned;
  undone = some (destroy answers done.logger);
}

-- Behind the backup file.
abbrev pub after_backup : Creation → Status → Logger → Created
after_backup creation status_ok l =
    let done = build_builtin_streams creation.streams l in
    finish_create creation.join done.result done
after_backup creation fault l = refused fault (some (destroy creation.join l))

-- Behind the blocks.
abbrev pub after_blocks : Creation → Status → Logger → Created
after_blocks creation status_ok l =
    let (result, opened) = backup_open creation.backup_directory creation.open_backup l in
    after_backup creation result opened
after_blocks creation fault l = refused fault (some (destroy creation.join l))

-- Behind the tests and the first allocation, with the normalised configuration.
unfoldable pub build_logger : Creation → Config → Created
build_logger creation c =
    let (result, slots) = allocate_buffers creation.blocks c in
    after_blocks creation result (record (blank_logger creation.run_time c) { slots = slots })

-- The flag says whether `out_logger` is not NULL.
unfoldable pub create : Creation → Option Config → Bool → Created
create creation none wanted = refused invalid_argument none
create creation (some c) wanted =
    if not wanted
    then refused invalid_argument none
    else if not (validate_config c)
    then refused config_error none
    else if creation.allocated
    then build_logger creation (normalize_config c)
    else refused io_error none

-- The status of the start, and the logger behind it, after a creation that has succeeded.
abbrev pub settled : Join → Status → Logger → Created → Created
settled answers status_ok l created = record created { logger = some l }
settled answers fault l created = record created {
  result = fault;
  logger = none;
  undone = some (destroy answers l);
}

-- Behind `mp_logger_create`: the new thread, if it can be made.
abbrev pub start_created : Join → Bool → Option Logger → Created → Created
start_created answers spawned none created = created
start_created answers spawned (some l) created =
    let (result, l') = start spawned l in settled answers result l' created

-- Behind `mp_logger_bootstrap_load`.
abbrev pub after_load : Creation → Bool → Status → Option Config → Created
after_load creation spawned status_ok loaded =
    let created = create creation loaded true in
    start_created creation.join spawned created.logger created
after_load creation spawned fault loaded = refused fault none

unfoldable pub create_from_bootstrap :
    (Bytes → Option Bytes) → Option Bytes → Creation → Bool → Created
create_from_bootstrap files config_path creation spawned =
    let (result, loaded) = bootstrap_load files config_path in
    after_load creation spawned result loaded
