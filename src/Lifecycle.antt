-- ===== src/Lifecycle.antt =====
-- Start, flush and shutdown in src/mp_logger.c. The answers of the threads library and of the clocks
-- are arguments.
use mp_logger.Common.{
  ℕ, ◌+◌, ◌-◌, ◌*◌, ◌/◌, ◌%◌, Bool, true, false, ◌&&◌, List, [], ◌∷◌, Option, none, some, ltb, leb,
  ◌==◌, if◌then◌else◌, length,
}
use mp_logger.Status.{Status, status_ok, config_error, not_running, internal_error}
use mp_logger.Logger.{Logger}

-- The flag says whether `pthread_create` succeeded.
unfoldable pub start : Bool → Logger → Status × Logger
start spawned l =
    if l.worker_started
    then (status_ok, l)
    else if length l.streams == 0
    then (config_error, l)
    else let l' : Logger = record l { shutdown_requested = false } in
      if spawned then (status_ok, record l' { worker_started = true }) else (internal_error, l')

-- `struct timespec`, from the epoch on.
pub record Timespec : Type 0 where
  pub seconds : ℕ
  pub nanoseconds : ℕ

-- The absolute deadline of the join.
unfoldable pub join_deadline : ℕ → Timespec → Timespec
join_deadline timeout_millis now =
    let seconds = now.seconds + timeout_millis / 1000 in
    let nanoseconds = now.nanoseconds + timeout_millis % 1000 * 1000000 in
    if leb 1000000000 nanoseconds
    then record { seconds = seconds + 1; nanoseconds = nanoseconds - 1000000000 }
    else record { seconds = seconds; nanoseconds = nanoseconds }

-- What `clock_gettime`, `pthread_timedjoin_np` and `pthread_join` answer to the call.
pub record Join : Type 0 where
  pub clock : Option Timespec
  pub timed_join : Timespec → Bool
  pub join : Bool

-- Whether the worker has been joined, on Linux.
unfoldable pub joined : Join → ℕ → Bool
joined answers timeout_millis =
    if ltb 0 timeout_millis
    then elim answers.clock [
      | none ↦ false
      | some now ↦ answers.timed_join (join_deadline timeout_millis now)
    ]
    else answers.join

unfoldable pub shutdown : Join → ℕ → Logger → Status × Logger
shutdown answers timeout_millis l =
    let l' : Logger = record l { shutdown_requested = true } in
    if l.worker_started
    then (if joined answers timeout_millis
        then (status_ok, record l' { worker_started = false })
        else (internal_error, l'))
    else (status_ok, l')

-- What a round of the wait reads: `processed_records_total`, and the monotonic clock.
pub record Poll : Type 0 where
  pub processed : ℕ
  pub time : ℕ

-- The loop over what its rounds read; `none` while it still waits.
unfoldable pub wait_processed : ℕ → ℕ → ℕ → List Poll → Option Status
wait_processed target timeout_millis deadline_millis [] = none
wait_processed target timeout_millis deadline_millis (p ∷ polls) =
    let rest = wait_processed target timeout_millis deadline_millis polls in
    if ltb p.processed target
    then (if ltb 0 timeout_millis && ltb deadline_millis p.time then some internal_error else rest)
    else some status_ok

-- `now` is the monotonic clock at the call; `l` the logger at the call.
unfoldable pub flush : Logger → ℕ → ℕ → List Poll → Option Status
flush l timeout_millis now polls =
    if l.worker_started
    then wait_processed l.queued_records_total timeout_millis (now + timeout_millis) polls
    else some (if l.queue_count == 0 then status_ok else not_running)
