-- ===== src/Streams/Configure.antt =====
-- Runtime configuration keeps the stream table coherent and leaves what was fixed at creation.
use native.Mathlib.Decide.{dec_le}
use mp_logger.Common.{
  ◌≤◌, ◌≡◌, ◌↔◌, refl, inl, inr, true, false, not, List, [], ◌∷◌, some, arith, Bytes, Bool-cases,
  length,
}
use mp_logger.Status.{Level, level_fatal}
use mp_logger.Config.{Config, validate_config}
use mp_logger.Logger.{Stream, Logger}
use mp_logger.Streams.{
  max_streams, refresh_enabled_level_mask, retarget, retarget_all, runtime_config_is_compatible,
  apply_config_to_streams, has_name, normalize_config, take_over, configure, destroy_streams,
  is_level_enabled,
}
use mp_logger.Streams.Mask.{test_bit-zero, accepts, HasLevels, streams_mask_lem}
use mp_logger.Streams.Coherence.{HasUniqueNames, IsCoherent}

-- The upper bounds that a configuration gives to the built-in streams are levels.
pub record HasBuiltinLevels (c : Config) : Type 0 where
  pub stdout_level : c.stdout_max_level ≤ level_fatal
  pub stderr_level : c.stderr_max_level ≤ level_fatal
  pub file_level : c.file_max_level ≤ level_fatal
  pub udp_level : c.udp_max_level ≤ level_fatal

stream_name-retarget : (c : Config) (s : Stream) → (retarget c s).stream_name ≡ s.stream_name
unfolding retarget
stream_name-retarget c s = ground arith

retarget_level :
    (c : Config) (s : Stream)
    → HasBuiltinLevels c
    → s.maximum_level ≤ level_fatal
    → (retarget c s).maximum_level ≤ level_fatal
unfolding retarget
retarget_level c s h b = ground arith

module _ (c : Config) where
  length-retarget_all : (streams : List Stream) → length (retarget_all c streams) ≡ length streams
  unfolding retarget_all
  length-retarget_all [] = refl
  length-retarget_all (s ∷ streams) = omega (arith, length-retarget_all streams)

  has_name-retarget_all :
      (name : Bytes) (streams : List Stream)
      → has_name name (retarget_all c streams) ≡ has_name name streams
  unfolding retarget_all has_name
  has_name-retarget_all name [] = refl
  has_name-retarget_all name (s ∷ streams) =
      rw (stream_name-retarget c s, has_name-retarget_all name streams)

  HasUniqueNames-retarget_all :
      (streams : List Stream) → HasUniqueNames streams → HasUniqueNames (retarget_all c streams)
  unfolding retarget_all
  HasUniqueNames-retarget_all [] u = tt
  HasUniqueNames-retarget_all (s ∷ streams) u = (
    rw (stream_name-retarget c s, has_name-retarget_all s.stream_name streams) u.0,
    HasUniqueNames-retarget_all streams u.1,
  )

  HasLevels-retarget_all :
      (streams : List Stream)
      → HasBuiltinLevels c
      → HasLevels streams
      → HasLevels (retarget_all c streams)
  unfolding retarget_all
  HasLevels-retarget_all [] h b = tt
  HasLevels-retarget_all (s ∷ streams) h b =
      (retarget_level c s h b.0, HasLevels-retarget_all streams h b.1)

-- A recomputed mask is coherent.
pub refresh-IsCoherent :
    (l : Logger)
    → length l.streams ≤ max_streams
    → HasUniqueNames l.streams
    → HasLevels l.streams
    → IsCoherent (refresh_enabled_level_mask l)
unfolding refresh_enabled_level_mask
refresh-IsCoherent l w u h = record {
  within = w;
  unique = u;
  levels = h;
  small = (streams_mask_lem l.streams 0 0 h (omega arith) (omega arith)).0;
  cached = λ level hl. ground (
    arith,
    (streams_mask_lem l.streams 0 level h (omega arith) hl).1,
    test_bit-zero level (omega arith),
  );
}

take_over-HasBuiltinLevels :
    (old c : Config) → HasBuiltinLevels c → HasBuiltinLevels (take_over old (normalize_config c))
unfolding take_over normalize_config
take_over-HasBuiltinLevels old c b = omega arith

apply_config-IsCoherent :
    (l : Logger)
    → HasBuiltinLevels l.config
    → length l.streams ≤ max_streams
    → HasUniqueNames l.streams
    → HasLevels l.streams
    → IsCoherent (apply_config_to_streams l)
unfolding apply_config_to_streams
apply_config-IsCoherent l b w u h =
    refresh-IsCoherent (record l { streams = retarget_all l.config l.streams })
      (omega (arith, length-retarget_all l.config l.streams))
      (HasUniqueNames-retarget_all l.config l.streams u)
      (HasLevels-retarget_all l.config l.streams b h)

-- Reconfiguration, accepted or refused, keeps the table coherent, if the configuration's upper
-- bounds are levels.
pub configure-IsCoherent :
    (l : Logger) (c : Config)
    → IsCoherent l
    → HasBuiltinLevels c
    → IsCoherent (configure l (some c)).1
unfolding configure
configure-IsCoherent l c h b = elim (Bool-cases (not (validate_config c))) [
  | inl e ↦ rw e h
  | inr e ↦ rw e (elim (Bool-cases (not (runtime_config_is_compatible l (normalize_config c)))) [
    | inl f ↦ rw f h
    | inr f ↦ rw f (
        apply_config-IsCoherent (record l { config = take_over l.config (normalize_config c) })
          (take_over-HasBuiltinLevels l.config c b) h.within h.unique h.levels)
  ])
]

-- What two states of one logger share if the worker may go on from the first to the second: the
-- capacities of the storage, the names of files and endpoint, the queue and the size of the table.
pub record HasSameStorage (l l' : Logger) : Type 0 where
  pub same_buffer_capacity : l'.config.buffer_capacity ≡ l.config.buffer_capacity
  pub same_message_capacity : l'.config.message_capacity ≡ l.config.message_capacity
  pub same_context_capacity : l'.config.context_capacity ≡ l.config.context_capacity
  pub same_field_capacity : l'.config.field_capacity ≡ l.config.field_capacity
  pub same_field_key_capacity : l'.config.field_key_capacity ≡ l.config.field_key_capacity
  pub same_field_value_capacity : l'.config.field_value_capacity ≡ l.config.field_value_capacity
  pub same_log_directory : l'.config.log_directory ≡ l.config.log_directory
  pub same_file_name_prefix : l'.config.file_name_prefix ≡ l.config.file_name_prefix
  pub same_backup_file_name_prefix :
      l'.config.backup_file_name_prefix ≡ l.config.backup_file_name_prefix
  pub same_active_streams : l'.config.active_streams ≡ l.config.active_streams
  pub same_udp_host : l'.config.udp_host ≡ l.config.udp_host
  pub same_udp_port : l'.config.udp_port ≡ l.config.udp_port
  pub same_slots : l'.slots ≡ l.slots
  pub same_head : l'.queue_head ≡ l.queue_head
  pub same_tail : l'.queue_tail ≡ l.queue_tail
  pub same_count : l'.queue_count ≡ l.queue_count
  pub same_stream_count : length l'.streams ≡ length l.streams

-- A reconfiguration, accepted or refused, keeps the storage: capacities, file names, the list of
-- streams, the endpoint, the queue and the number of streams.
pub configure_frame : (l : Logger) (c : Config) → HasSameStorage l (configure l (some c)).1
unfolding configure apply_config_to_streams refresh_enabled_level_mask take_over
configure_frame l c =
    ground (arith, length-retarget_all (take_over l.config (normalize_config c)) l.streams)

-- Destroying the streams leaves an empty, coherent table.
pub destroy_streams-IsCoherent : (l : Logger) → IsCoherent (destroy_streams l).1
unfolding destroy_streams
destroy_streams-IsCoherent l = record {
  within = omega arith;
  unique = tt;
  levels = tt;
  small = omega arith;
  cached = λ level h. test_bit-zero level (omega arith);
}

-- In a coherent logger, a level is reported enabled exactly if the logger is not shut down, it is a
-- level up to FATAL and some registered stream accepts it.
pub is_level_enabled_iff :
    (l : Logger) (level : Level)
    → IsCoherent l
    → (is_level_enabled (some l) level ≡ true)
      ↔ ((l.shutdown_requested ≡ false) × (level ≤ level_fatal) × (accepts l.streams level ≡ true))
unfolding is_level_enabled
is_level_enabled_iff l level c = elim (dec_le level level_fatal) [
  | yes h ↦ ground (arith, c.cached level h)
  | no h ↦ ground arith
]
