-- ===== src/Tests/System.antt =====
-- A logger with one stream: a record is accepted, and a shutdown is requested.
use native.Mathlib.Omega.{arith}
use mp_logger.Common.{
  ℕ, ◌<◌, map, none, size_mod, ◌+◌, ◌*◌, ◌≡◌, refl, true, false, [], ◌∷◌, List, ◌++◌, codes, some,
  length, All,
}
use mp_logger.Common.Lists.{str_eq}
use mp_logger.Common.Int.{pos}
use mp_logger.Status.{status_ok}
use mp_logger.Config.{config_init_defaults}
use mp_logger.Logger.{Record, Logger}
use mp_logger.Fields.{
  is_key_byte, is_valid_field_key, is_reserved_field_key, any_equal, all_key_bytes, has_key,
  check_field, check_value, check_fields, validate_fields,
}
use mp_logger.Text.{is_alnum, is_digit}
use mp_logger.Queue.{stage, try_stage, take_record}
use mp_logger.Queue.History.{asked}
use mp_logger.Worker.Loop.{worker_enter, worker_step, step_at, ended, blocked, Turn}
use mp_logger.Lifecycle.{start, flush, wait_processed}
use mp_logger.System.{
  System, Moves, Reach, at_start, after, move, starts, enter, commit, ask_shutdown, initial,
  entered, committed, spawn,
}
use mp_logger.System.Reachable.{Moves-Reach, IsFresh, Reach-IsSound, initial-IsSound}
use mp_logger.System.Flush.{flush_lem, read}
use mp_logger.System.Liveness.{run_worker, run_worker-IsDone, run_worker-Moves, IsDone}
use mp_logger.System.Progress.{flush_ends}
use mp_logger.System.Race.{race_lem}
use mp_logger.System.Wakeup.{announced, lost_signal_lem}
use mp_logger.System.Delivered.{HasDelivered, all_writes}
use mp_logger.Tests.Samples.{two_slots, small_config, greeting}
use mp_logger.Tests.Queue.{two_slots-IsValid}
use mp_logger.Tests.Render.{printer}
use mp_logger.Tests.Worker.{always_ok}

abbrev created : Logger
created = record two_slots { worker_started = false }

created-IsFresh : IsFresh created
unfolding config_init_defaults
created-IsFresh = record {
  valid = record {
    storage = two_slots-IsValid.storage;
    capacity_fits = two_slots-IsValid.capacity_fits;
    head_in = two_slots-IsValid.head_in;
    count_in = two_slots-IsValid.count_in;
    tail_is = two_slots-IsValid.tail_is;
  };
  room = record {
    message_room = omega arith;
    context_room = omega arith;
    value_room = omega arith;
  };
  empty = refl;
  none_queued = refl;
  none_processed = refl;
}

abbrev begun : System
begun =
    let (result, l) = start true created in
    record (initial created) {
      logger = l;
      worker = spawn result true created (initial created).worker;
    }

abbrev calling : System
calling = entered begun 0 greeting (codes "hello")

abbrev answered : System
answered = committed calling 0 true (pos 5) greeting (codes "hello")

abbrev closing : System
closing = record answered { logger = record answered.logger { shutdown_requested = true } }

greeting-valid : validate_fields small_config greeting.args ≡ status_ok
unfolding config_init_defaults validate_fields check_fields check_field check_value
    is_valid_field_key is_key_byte all_key_bytes is_reserved_field_key any_equal has_key is_alnum
    is_digit str_eq
greeting-valid = refl

begun-Reach : Reach printer always_ok (initial created) begun
begun-Reach = after at_start (starts true true refl refl)

answered-Reach : Reach printer always_ok (initial created) answered
unfolding start worker_enter
answered-Reach =
    after
      (after begun-Reach (move (enter 0 greeting (codes "hello") refl refl greeting-valid refl)))
      (move (commit 0 true (pos 5) greeting (codes "hello") refl refl))

closing-Reach : Reach printer always_ok (initial created) closing
closing-Reach = after answered-Reach (move ask_shutdown)

run_worker-IsDone_example :
    let t = run_worker printer always_ok (4 * closing.logger.queue_count + 5) closing in
    Moves printer always_ok closing t × IsDone printer closing t
unfolding start worker_enter
run_worker-IsDone_example =
    run_worker-IsDone printer always_ok closing
      (Reach-IsSound printer always_ok (initial-IsSound printer created created-IsFresh)
        closing-Reach)
      refl tt tt

abbrev at_end : System
at_end = run_worker printer always_ok (4 * closing.logger.queue_count + 5) closing

-- A flush whose first round comes before the record was counted, and the second one after.
abbrev counted : System
counted = run_worker printer always_ok 4 answered

abbrev rounds : List (System × ℕ)
rounds = (answered, 0) ∷ (counted, 1) ∷ []

rounds-observed :
    All (λ u. Reach printer always_ok answered u.0 × (length u.0.accepted < size_mod)) rounds
unfolding run_worker worker_step step_at take_record try_stage stage start worker_enter
rounds-observed = (
  (at_start, omega arith),
  (
    (
      Moves-Reach printer always_ok at_start (run_worker-Moves printer always_ok 4 answered),
      omega arith,
    ),
    tt,
  ),
)

flushed : flush answered.logger 100 0 (map read rounds) ≡ some status_ok
unfolding flush wait_processed run_worker worker_step step_at take_record try_stage stage start
    worker_enter
flushed = refl

flush_lem_example :
    (before : List (System × ℕ)) × (u : System × ℕ) × (later : List (System × ℕ)) × (rounds
      ≡ before ++ (u ∷ later))
    × (flush answered.logger 100 0 (map read before) ≡ none)
    × ((more : List Record) × HasDelivered printer (answered.accepted ++ more) u.0.journal)
unfolding start try_stage stage
flush_lem_example =
    flush_lem printer always_ok created 100 0 rounds created-IsFresh answered-Reach refl
      rounds-observed flushed

lost_signal_lem_example :
    (u : System) × Moves printer always_ok begun u
    × Moves printer always_ok u (announced printer always_ok u)
    × ((turn : Turn) × (worker_step printer always_ok
            (announced printer always_ok u).worker
            (announced printer always_ok u).logger
          ≡ some turn)
        × (turn.worker.pc ≡ blocked)
        × (turn.logger.shutdown_requested ≡ true)
        × (worker_step printer always_ok turn.worker turn.logger ≡ none))
unfolding start worker_enter
lost_signal_lem_example = lost_signal_lem printer always_ok begun refl refl refl

race_lem_example :
    (t : System) × Moves printer always_ok begun t
    × (t.accepted ≡ begun.accepted ++ asked status_ok begun.logger greeting (pos 5))
    × ((u : System)
        → Moves printer always_ok t u
        → (u.worker.pc ≡ ended) × (all_writes u.journal ≡ all_writes begun.journal))
unfolding start worker_enter
race_lem_example =
    race_lem printer always_ok begun 0 (pos 5) greeting (codes "hello")
      (Reach-IsSound printer always_ok (initial-IsSound printer created created-IsFresh)
        begun-Reach)
      refl refl refl refl refl greeting-valid

flush_ends_example :
    let t = run_worker printer always_ok (4 * answered.logger.queue_count + 3) answered in
    HasDelivered printer answered.accepted t.journal
    × (flush answered.logger 0 7
          ([] ++ (record { processed = t.logger.processed_records_total; time = 9 } ∷ []))
        ≡ some status_ok)
unfolding start worker_enter try_stage stage
flush_ends_example =
    flush_ends printer always_ok answered 7 9 []
      (Reach-IsSound printer always_ok (initial-IsSound printer created created-IsFresh)
        answered-Reach)
      refl tt refl
