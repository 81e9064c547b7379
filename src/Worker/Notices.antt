-- ===== src/Worker/Notices.antt =====
-- What the worker tells the backup logger.
use mp_logger.Common.{
  ℕ, ◌<◌, ◌≡◌, some, inl, inr, Bool, true, false, List, [], ◌∷◌, ◌++◌, arith, Bytes, codes, ltb,
  if◌then◌else◌, Bool-cases, length, length-take, take, All, All-append,
}
use mp_logger.Status.{Status, status_ok, status_name, level_name}
use mp_logger.Logger.{Record, Stream, Logger}
use mp_logger.Streams.{level_in_range}
use mp_logger.Common.Int.{ℤ}
use mp_logger.Render.Number.{Printer}
use mp_logger.Backup.{Notice, backup_text, backup_write}
use mp_logger.Backup.Line.{IsShort, backup_write_lem}
use mp_logger.Worker.{
  failure_notice, Callback, report, dispatch, Reported, drop_notice, flush_drop_counters,
}

drop_notice-IsShort : (text : Bytes) (total : ℕ) → IsShort (drop_notice text total)
unfolding drop_notice level_name
drop_notice-IsShort text total = record {
  severity_short = omega arith;
  notice_short = omega (arith, length-take {0});
}

short : (text : Bytes) → length (take 159 text) < 160
short text = omega (arith, length-take 159 text)

failure_notice-IsShort : (name : Bytes) (s : Status) → IsShort (failure_notice name s)
unfolding failure_notice level_name
failure_notice-IsShort name s = record {
  severity_short = omega arith;
  notice_short = short (codes "stream=" ++ name ++ codes " write failure status=" ++ status_name s);
}

report-All : (name : Bytes) (s : Status) → All IsShort (report name s)
unfolding report
report-All name status_ok = tt
report-All name _ = (failure_notice-IsShort name _, tt)

dispatch_notices-All :
    (callback : Callback) (streams : List Stream) (r : Record) (text : Bytes) (n : ℕ)
    → All IsShort (dispatch callback streams r text n).1
unfolding dispatch
dispatch_notices-All callback [] r text n = tt
dispatch_notices-All callback (s ∷ streams) r text n =
    let later = dispatch_notices-All callback streams r text n in
    elim (Bool-cases (level_in_range r.level s.minimum_level s.maximum_level)) [
      | inl inside ↦
          rw inside
            (All-append IsShort (report s.stream_name _) _ (report-All s.stream_name _) later)
      | inr outside ↦ rw outside later
    ]

drop_notices-All :
    (test : Bool) (text : Bytes) (total : ℕ)
    → All IsShort (if test then drop_notice text total ∷ [] else [])
drop_notices-All true text total = (drop_notice-IsShort text total, tt)
drop_notices-All false text total = tt

notices-All :
    (callback : Callback) (streams : List Stream) (r : Record) (text : Bytes) (n : ℕ) (l : Logger)
    (last : Reported)
    → All IsShort ((dispatch callback streams r text n).1 ++ (flush_drop_counters l last).0)
unfolding flush_drop_counters
notices-All callback streams r text n l last =
    All-append IsShort (dispatch callback streams r text n).1 _
      (dispatch_notices-All callback streams r text n)
      (All-append IsShort _ _ (drop_notices-All (ltb last.last_busy_total l.dropped_busy_total) _ _)
        (drop_notices-All (ltb last.last_full_total l.dropped_full_total) _ _))

written_lines :
    (printer : Printer) (now : ℤ) (l : Logger) (notices : List Notice) {fd : ℕ}
    → l.backup_fd ≡ some fd
    → All IsShort notices
    → All
        (λ notice. backup_write printer now l notice ≡ some (fd, backup_text printer now notice))
        notices
written_lines printer now l [] open_ h = tt
written_lines printer now l (notice ∷ notices) open_ (short, h) =
    (backup_write_lem printer now l notice open_ short, written_lines printer now l notices open_ h)

-- While the backup file is open, every notice of the worker, of a failed write to a stream or of
-- counted drops, whatever the stream's name, the status and the totals are, goes to that file as one
-- whole line: the array for the line never cuts it.
pub notices_written :
    (printer : Printer) (now : ℤ) (callback : Callback) (streams : List Stream) (r : Record)
    (text : Bytes) (n : ℕ) (l : Logger) (last : Reported) {fd : ℕ}
    → l.backup_fd ≡ some fd
    → All
        (λ notice. backup_write printer now l notice ≡ some (fd, backup_text printer now notice))
        ((dispatch callback streams r text n).1 ++ (flush_drop_counters l last).0)
notices_written printer now callback streams r text n l last open_ =
    written_lines printer now l _ open_ (notices-All callback streams r text n l last)
