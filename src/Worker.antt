-- ===== src/Worker.antt =====
-- What `mp_logger_worker_main` of src/mp_logger.c does with a record that it has taken, and
-- `mp_logger_get_stats`. The worker holds `stream_mutex` while it renders and writes.
pub mod Loop
pub mod Deliver
pub mod Notices
use mp_logger.Common.{
  ℕ, ◌+◌, ◌-◌, codes, ltb, take, Bool, true, false, List, [], ◌∷◌, ◌++◌, Bytes, if◌then◌else◌,
  add_size, length,
}
use mp_logger.Status.{Status, status_ok, status_name, level_name, level_warning, level_error}
use mp_logger.Logger.{Record, Stream, Logger}
use mp_logger.Streams.{level_in_range}
use mp_logger.Render.Number.{Printer, print_unsigned}
use mp_logger.Backup.{Notice}
use mp_logger.Render.Entry.{render_record}

-- One call of a stream's `write` callback.
pub record Write : Type 0 where
  pub stream_context : ℕ
  pub written : Record
  pub text : Bytes
  pub text_length : ℕ

-- The answers of the streams' callbacks, which are the client's: each is called once at most for a
-- record.
abbrev pub Callback : Type 0
Callback = Write → Status

abbrev pub error_message_capacity : ℕ
error_message_capacity = 160

unfoldable pub failure_notice : Bytes → Status → Notice
failure_notice name s = record {
  severity = level_name level_error;
  notice =
      take (error_message_capacity - 1)
        (codes "stream=" ++ name ++ codes " write failure status=" ++ status_name s);
}

-- What a status other than OK makes the worker tell the backup logger.
unfoldable pub report : Bytes → Status → List Notice
report name status_ok = []
report name s = failure_notice name s ∷ []

-- The loop over the streams: the calls that it makes, in their order, and the failures.
unfoldable pub dispatch : Callback → List Stream → Record → Bytes → ℕ → List Write × List Notice
dispatch callback [] r text n = ([], [])
dispatch callback (s ∷ streams) r text n =
    let call : Write = record {
      stream_context = s.stream_context;
      written = r;
      text = text;
      text_length = n;
    } in
    let rest = dispatch callback streams r text n in
    if level_in_range r.level s.minimum_level s.maximum_level
    then (call ∷ rest.0, report s.stream_name (callback call) ++ rest.1)
    else rest

pub record Delivery : Type 0 where
  pub writes : List Write
  pub failures : List Notice

-- A record is rendered once into the worker's buffer and written to the streams.
unfoldable pub deliver : Printer → Callback → Logger → Bytes → Record → Delivery
deliver printer callback l buffer r =
    let (text, n) = render_record printer l.render_capacity l.config r buffer in
    let (writes, failures) = dispatch callback l.streams r text n in
    record { writes = writes; failures = failures }

-- The totals that have been reported.
pub record Reported : Type 0 where
  pub last_busy_total : ℕ
  pub last_full_total : ℕ

abbrev pub drop_message_capacity : ℕ
drop_message_capacity = 128

unfoldable pub drop_notice : Bytes → ℕ → Notice
drop_notice text total = record {
  severity = level_name level_warning;
  notice = take (drop_message_capacity - 1) (text ++ print_unsigned total);
}

-- `mp_logger_flush_drop_counters`: the notices and the totals reported afterwards.
unfoldable pub flush_drop_counters : Logger → Reported → List Notice × Reported
flush_drop_counters l last =
    let busy =
      if ltb last.last_busy_total l.dropped_busy_total
      then drop_notice (codes "log call contention dropped records total=") l.dropped_busy_total
        ∷ []
      else [] in
    let full =
      if ltb last.last_full_total l.dropped_full_total
      then drop_notice (codes "buffer saturation dropped records total=") l.dropped_full_total ∷ []
      else [] in
    (
      busy ++ full,
      record {
        last_busy_total =
            if ltb last.last_busy_total l.dropped_busy_total
            then l.dropped_busy_total
            else last.last_busy_total;
        last_full_total =
            if ltb last.last_full_total l.dropped_full_total
            then l.dropped_full_total
            else last.last_full_total;
      },
    )

pub record Stats : Type 0 where
  pub queued_records : ℕ
  pub processed_records : ℕ
  pub dropped_busy : ℕ
  pub dropped_full : ℕ
  pub active_stream_count : ℕ

-- `mp_logger_get_stats`
unfoldable pub get_stats : Logger → Status × Stats
get_stats l = (
  status_ok,
  record {
    queued_records = l.queued_records_total;
    processed_records = l.processed_records_total;
    dropped_busy = l.dropped_busy_total;
    dropped_full = l.dropped_full_total;
    active_stream_count = length l.streams;
  },
)
