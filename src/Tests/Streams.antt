-- ===== src/Tests/Streams.antt =====
-- A logger with one stream.
use mp_logger.Common.{◌≡◌, ◌↔◌, ◌≤◌, refl, some, codes, arith, true, false}
use mp_logger.Common.Lists.{str_eq}
use mp_logger.Common.Bits.{test_bit}
use mp_logger.Status.{config_error, level_fatal}
use mp_logger.Config.{Config, config_init_defaults}
use mp_logger.Logger.{Stream}
use mp_logger.Streams.{
  level_in_range, mask_from, level_range_mask, streams_mask, refresh_enabled_level_mask, has_name,
  add_owned_stream, configure, is_level_enabled,
}
use mp_logger.Streams.Mask.{accepts, test_bit-level_range_mask}
use mp_logger.Streams.Coherence.{IsCoherent, add_owned_stream-IsCoherent}
use mp_logger.Streams.Configure.{
  HasBuiltinLevels, HasSameStorage, refresh-IsCoherent, configure-IsCoherent, configure_frame,
  is_level_enabled_iff,
}
use mp_logger.Tests.Samples.{small_config, console, two_slots}

-- The mask that the sample holds is the one that the loop computes.
sample_mask :
    (refresh_enabled_level_mask two_slots).enabled_level_mask ≡ two_slots.enabled_level_mask
unfolding refresh_enabled_level_mask streams_mask level_range_mask mask_from
sample_mask = refl

pub two_slots-IsCoherent : IsCoherent two_slots
unfolding refresh_enabled_level_mask streams_mask level_range_mask mask_from has_name
two_slots-IsCoherent = refresh-IsCoherent two_slots (omega arith) (refl, tt) (omega arith, tt)

test_bit-level_range_mask_example : test_bit (level_range_mask 2 4) 3 ≡ level_in_range 3 2 4
test_bit-level_range_mask_example = test_bit-level_range_mask 2 4 3 (omega arith) (omega arith)

abbrev audit : Stream
audit = record console { stream_name = codes "audit"; minimum_level = 5; maximum_level = 5 }

add_owned_stream-IsCoherent_example : IsCoherent (add_owned_stream two_slots (some audit)).1
add_owned_stream-IsCoherent_example =
    add_owned_stream-IsCoherent two_slots audit two_slots-IsCoherent (omega arith)

second_console : (add_owned_stream two_slots (some console)).0 ≡ config_error
unfolding add_owned_stream has_name str_eq
second_console = refl

abbrev quiet : Config
quiet = record small_config { stdout_max_level = 0; pretty_output = true }

quiet-HasBuiltinLevels : HasBuiltinLevels quiet
unfolding config_init_defaults
quiet-HasBuiltinLevels = record {
  stdout_level = omega arith;
  stderr_level = omega arith;
  file_level = omega arith;
  udp_level = omega arith;
}

configure-IsCoherent_example : IsCoherent (configure two_slots (some quiet)).1
configure-IsCoherent_example =
    configure-IsCoherent two_slots quiet two_slots-IsCoherent quiet-HasBuiltinLevels

configure_frame_example : HasSameStorage two_slots (configure two_slots (some quiet)).1
configure_frame_example = configure_frame two_slots quiet

is_level_enabled_iff_example : (is_level_enabled (some two_slots) 3 ≡ true) ↔ (
    (two_slots.shutdown_requested ≡ false)
    × (3 ≤ level_fatal)
    × (accepts two_slots.streams 3 ≡ true))
is_level_enabled_iff_example = is_level_enabled_iff two_slots 3 two_slots-IsCoherent
