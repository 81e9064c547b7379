-- ===== src/Create/Ready.antt =====
-- The loggers that `mp_logger_create` goes through on its way.
use mathlib.Core.Path.{subst}
use mp_logger.Common.{
  ℕ, ◌<◌, ◌≡◌, refl, sym, ap, ◌∙◌, true, false, List, [], Option, arith, Bytes, length,
  length-replicate, size_mod,
}
use mp_logger.Status.{status_ok}
use mp_logger.Config.{Config, validate_config}
use mp_logger.Logger.{Logger, Slot}
use mp_logger.Streams.{normalize_config}
use mp_logger.Streams.Mask.{test_bit-zero}
use mp_logger.Streams.Coherence.{IsCoherent}
use mp_logger.Storage.{Blocks, allocate_buffers, empty_slot}
use mp_logger.Files.{Directory}
use mp_logger.Backup.{backup_open}
use mp_logger.Builtin.Build.{Built}
use mp_logger.Streams.Configure.{HasBuiltinLevels}
use mp_logger.Builtin.Table.{IsBuiltOn}
use mp_logger.Queue.Refine.{HasRoom}
use mp_logger.System.Reachable.{IsFresh}
use mp_logger.Create.{blank_logger}

-- A logger that can be started: its queue is empty and well-formed, its stream table coherent.
pub record IsReady (c : Config) (l : Logger) : Type 0 where
  pub fresh : IsFresh l
  pub coherent : IsCoherent l
  pub stopped : l.worker_started ≡ false
  pub accepting : l.shutdown_requested ≡ false
  pub same_config : l.config ≡ c

-- Another table, and another backup file.
others-IsReady :
    (c : Config) (l l' : Logger)
    → IsReady c l
    → IsCoherent l'
    → l' ≡ record l {
      streams = l'.streams;
      enabled_level_mask = l'.enabled_level_mask;
      backup_fd = l'.backup_fd;
      backup_path = l'.backup_path;
    }
    → IsReady c l'
others-IsReady c l l' h coherent e = record {
  fresh = subst IsFresh (sym e) (record {
    valid = record {
      storage = h.fresh.valid.storage;
      capacity_fits = h.fresh.valid.capacity_fits;
      head_in = h.fresh.valid.head_in;
      count_in = h.fresh.valid.count_in;
      tail_is = h.fresh.valid.tail_is;
    };
    room = h.fresh.room;
    empty = h.fresh.empty;
    none_queued = h.fresh.none_queued;
    none_processed = h.fresh.none_processed;
  });
  coherent = coherent;
  stopped = ap (λ m. m.worker_started) e ∙ h.stopped;
  accepting = ap (λ m. m.shutdown_requested) e ∙ h.accepting;
  same_config = ap (λ m. m.config) e ∙ h.same_config;
}

pub built-IsReady :
    (c : Config) (l : Logger) (done : Built)
    → IsReady c l
    → IsBuiltOn l done
    → IsReady c done.logger
built-IsReady c l done h b = others-IsReady c l done.logger h b.coherent (
    b.others
    ∙ ap {A = Logger} {B = Logger}
        (λ m. record l {
          streams = done.logger.streams;
          enabled_level_mask = done.logger.enabled_level_mask;
          backup_fd = m.backup_fd;
          backup_path = m.backup_path;
        })
        (sym b.others))

pub opened-IsReady :
    (c : Config) (l l' : Logger)
    → IsReady c l
    → l' ≡ record l { backup_fd = l'.backup_fd; backup_path = l'.backup_path }
    → IsReady c l'
opened-IsReady c l l' h e =
    let coherent : IsCoherent l' = subst IsCoherent (sym e) (record {
      within = h.coherent.within;
      unique = h.coherent.unique;
      levels = h.coherent.levels;
      small = h.coherent.small;
      cached = h.coherent.cached;
    }) in
    others-IsReady c l l' h coherent (
      e
      ∙ ap {A = Logger} {B = Logger}
          (λ m. record l {
            streams = m.streams;
            enabled_level_mask = m.enabled_level_mask;
            backup_fd = l'.backup_fd;
            backup_path = l'.backup_path;
          })
          (sym e))

pub backup_open-others :
    (answers : Directory) (open_file : Bytes → Option ℕ) (l : Logger)
    → let l' = (backup_open answers open_file l).1 in
      l' ≡ record l { backup_fd = l'.backup_fd; backup_path = l'.backup_path }
unfolding backup_open
backup_open-others answers open_file l = ground arith

-- The capacities that `mp_logger_validate_config` asks for.
pub validate_config-room :
    (c : Config) → validate_config c ≡ true → (0 < c.buffer_capacity) × HasRoom c
unfolding validate_config
validate_config-room c e = (
  ground (arith, e),
  record {
    message_room = ground (arith, e);
    context_room = ground (arith, e);
    value_room = ground (arith, e);
  },
)

pub blank-IsReady :
    (run_time : Option Bytes) (c : Config) (slots : List Slot)
    → 0 < c.buffer_capacity
    → c.buffer_capacity < size_mod
    → HasRoom c
    → length slots ≡ c.buffer_capacity
    → IsReady c (record (blank_logger run_time c) { slots = slots })
unfolding blank_logger
blank-IsReady run_time c slots positive small room size = record {
  fresh = record {
    valid = record {
      storage = size;
      capacity_fits = small;
      head_in = positive;
      count_in = omega arith;
      tail_is = omega (arith, positive);
    };
    room = room;
    empty = refl;
    none_queued = refl;
    none_processed = refl;
  };
  coherent = record {
    within = omega arith;
    unique = tt;
    levels = tt;
    small = omega arith;
    cached = λ level h. test_bit-zero level (omega arith);
  };
  stopped = refl;
  accepting = refl;
  same_config = refl;
}

pub allocate_buffers-length :
    (blocks : Blocks) (c : Config)
    → (allocate_buffers blocks c).0 ≡ status_ok
    → length (allocate_buffers blocks c).1 ≡ c.buffer_capacity
unfolding allocate_buffers
allocate_buffers-length blocks c e =
    ground (arith, e, length-replicate c.buffer_capacity (empty_slot c))

pub blank-streams : (run_time : Option Bytes) (c : Config) → (blank_logger run_time c).streams ≡ []
unfolding blank_logger
blank-streams run_time c = refl

-- What the file names are made of does not touch what the construction asks for.
pub normalize_config-room : (c : Config) → HasRoom c → HasRoom (normalize_config c)
unfolding normalize_config
normalize_config-room c h = record {
  message_room = h.message_room;
  context_room = h.context_room;
  value_room = h.value_room;
}

pub normalize_config-HasBuiltinLevels :
    (c : Config) → HasBuiltinLevels c → HasBuiltinLevels (normalize_config c)
unfolding normalize_config
normalize_config-HasBuiltinLevels c h = record {
  stdout_level = h.stdout_level;
  stderr_level = h.stderr_level;
  file_level = h.file_level;
  udp_level = h.udp_level;
}

pub normalize_config-buffer :
    (c : Config) → (normalize_config c).buffer_capacity ≡ c.buffer_capacity
unfolding normalize_config
normalize_config-buffer c = refl
