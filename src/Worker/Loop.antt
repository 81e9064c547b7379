-- ===== src/Worker/Loop.antt =====
-- The loop of `mp_logger_worker_main` in src/mp_logger.c, cut where other threads can come between.
use mp_logger.Common.{
  Bool, List, [], ◌∷◌, Option, none, some, Bytes, codes, if◌then◌else◌, add_size, replicate,
}
use mp_logger.Status.{level_name, level_error}
use mp_logger.Logger.{Record, Logger}
use mp_logger.Queue.{take_record}
use mp_logger.Render.Number.{Printer}
use mp_logger.Render.Entry.{render_record}
use mp_logger.Backup.{Notice}
use mp_logger.Worker.{Write, Callback, deliver, Reported, flush_drop_counters}

-- Where the worker stands: before `queue_mutex`, or back from `pthread_cond_wait`; behind the test of
-- the wait, with `queue_mutex` still held; in `pthread_cond_wait`; with a record before the report of
-- drops, before `stream_mutex`, and before the count of the record; behind the loop, and returned.
pub data Pc : Type 0 where
  waiting : Pc
  checked : Pc
  blocked : Pc
  holding : Record → Pc
  sending : Record → Pc
  counting : Record → Pc
  leaving : Pc
  ended : Pc

pub record Worker : Type 0 where
  pub pc : Pc
  pub reported : Reported
  pub render_buffer : Bytes

-- One piece of its work: the worker and the logger afterwards, and what was called.
pub record Turn : Type 0 where
  pub worker : Worker
  pub logger : Logger
  pub writes : List Write
  pub notices : List Notice

-- From the start of the thread to the loop; the flag says whether all buffers were allocated.
unfoldable pub worker_enter : Bool → Logger → Worker × List Notice
worker_enter allocated l =
    let fresh : Worker = record {
      pc = waiting;
      reported = record { last_busy_total = 0; last_full_total = 0 };
      render_buffer = replicate l.render_capacity 0;
    } in
    if allocated then (fresh, []) else (
      record fresh { pc = ended },
      record {
        severity = level_name level_error;
        notice = codes "worker thread could not allocate local buffers";
      }
          ∷ [],
    )

-- The work from one of these places to the next; `none` while the worker is blocked, and once it has
-- returned.
unfoldable pub step_at : Printer → Callback → Pc → Worker → Logger → Option Turn
step_at printer callback waiting w l = elim (take_record l) [
  | some (r, l') ↦
      some (record { worker = record w { pc = holding r }; logger = l'; writes = []; notices = [] })
  | none ↦
      if l.shutdown_requested
      then some
          (record { worker = record w { pc = leaving }; logger = l; writes = []; notices = [] })
      else some
          (record { worker = record w { pc = checked }; logger = l; writes = []; notices = [] })
]
step_at printer callback checked w l =
    some (record { worker = record w { pc = blocked }; logger = l; writes = []; notices = [] })
step_at printer callback blocked w l = none
step_at printer callback (holding r) w l =
    let (notices, last) = flush_drop_counters l w.reported in
    some (record {
      worker = record w { pc = sending r; reported = last };
      logger = l;
      writes = [];
      notices = notices;
    })
step_at printer callback (sending r) w l =
    let rendered = render_record printer l.render_capacity l.config r w.render_buffer in
    let d = deliver printer callback l w.render_buffer r in
    some (record {
      worker = record w { pc = counting r; render_buffer = rendered.0 };
      logger = l;
      writes = d.writes;
      notices = d.failures;
    })
step_at printer callback (counting r) w l = some (record {
  worker = record w { pc = waiting };
  logger = record l { processed_records_total = add_size l.processed_records_total 1 };
  writes = [];
  notices = [];
})
step_at printer callback leaving w l =
    let (notices, last) = flush_drop_counters l w.reported in
    some (record {
      worker = record w { pc = ended; reported = last };
      logger = l;
      writes = [];
      notices = notices;
    })
step_at printer callback ended w l = none

unfoldable pub worker_step : Printer → Callback → Worker → Logger → Option Turn
worker_step printer callback w l = step_at printer callback w.pc w l
