-- ===== src/Tests/Worker.antt =====
-- A record for the one stream of the sample.
use mp_logger.Common.{
  [], ◌∷◌, ◌++◌, codes, ◌≡◌, ◌<◌, ◌↔◌, refl, true, some, arith, All, length, replicate, take,
}
use mp_logger.Text.{c_string}
use mp_logger.Status.{status_ok, io_error}
use mp_logger.Logger.{Logger}
use mp_logger.Streams.{is_level_enabled}
use mp_logger.Render.Reference.{entry_text}
use mp_logger.Common.Int.{pos}
use mp_logger.Backup.{backup_write, backup_text}
use mp_logger.Worker.{Callback, deliver, dispatch, Reported, flush_drop_counters}
use mp_logger.Worker.Notices.{notices_written}
use mp_logger.Worker.Deliver.{deliver_iff, Shows, deliver-All}
use mp_logger.Tests.Samples.{console, small_config, two_slots}
use mp_logger.Tests.Streams.{two_slots-IsCoherent}
use mp_logger.Tests.Render.{printer, greeting_record, entry_size}

abbrev pub always_ok : Callback
always_ok call = status_ok

abbrev narrow : Logger
narrow = record two_slots { render_capacity = 16 }

abbrev refuses : Callback
refuses call = io_error

abbrev none_reported : Reported
none_reported = record { last_busy_total = 0; last_full_total = 0 }

deliver_iff_example :
    (is_level_enabled (some two_slots) 2 ≡ true)
    ↔ (0 < length (deliver printer always_ok two_slots (replicate 256 0) greeting_record).writes)
deliver_iff_example =
    deliver_iff printer always_ok two_slots (replicate 256 0) greeting_record two_slots-IsCoherent
      refl (omega arith)

deliver-All_example :
    All
      (Shows
        (c_string (take 15 (entry_text printer small_config small_config.format greeting_record))))
      (deliver printer always_ok narrow (replicate 16 1) greeting_record).writes
deliver-All_example =
    deliver-All printer always_ok narrow 15 (replicate 16 1) greeting_record refl refl
      (omega (arith, entry_size))

abbrev crowded : Logger
crowded = record two_slots { dropped_full_total = 2 }

notices_written_example :
    All
      (λ notice.
        backup_write printer (pos 5) crowded notice ≡ some (3, backup_text printer (pos 5) notice))
      ((dispatch refuses (console ∷ []) greeting_record (codes "hello") 5).1
        ++ (flush_drop_counters crowded none_reported).0)
notices_written_example =
    notices_written printer (pos 5) refuses (console ∷ []) greeting_record (codes "hello") 5 crowded
      none_reported refl
