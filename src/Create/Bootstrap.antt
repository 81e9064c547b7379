-- ===== src/Create/Bootstrap.antt =====
-- What `mp_logger_create_from_bootstrap` returns.
use mathlib.Core.Path.{subst}
use mp_logger.Common.{
  ◌<◌, ◌≡◌, ◌⊎◌, refl, sym, ap, ◌∙◌, inl, inr, Bool, true, false, map, Option, none, some, arith,
  Bytes, length,
}
use mp_logger.Status.{Status, status_ok}
use mp_logger.Config.{Config}
use mp_logger.Config.Load.{bootstrap_load}
use mp_logger.Config.Load.Laws.{bootstrap_load-IsBounded}
use mp_logger.Config.Apply.Bounds.{IsBounded}
use mp_logger.Logger.{Logger}
use mp_logger.Streams.{destroyed, normalize_config}
use mp_logger.Streams.Coherence.{IsCoherent}
use mp_logger.Lifecycle.{Join, start}
use mp_logger.System.Reachable.{IsFresh}
use mp_logger.Create.{
  Created, Creation, create, settled, start_created, after_load, create_from_bootstrap,
}
use mp_logger.Create.Ready.{IsReady}
use mp_logger.Create.Outcome.{IsRefused, IsOutcome, create-IsOutcome, destroy-contexts}

-- A logger that runs.
pub record IsRunning (l : Logger) : Type 0 where
  pub fresh : IsFresh l
  pub coherent : IsCoherent l
  pub runs : l.worker_started ≡ true
  pub accepting : l.shutdown_requested ≡ false
  pub has_streams : 0 < length l.streams

abbrev pub IsStarted : Created → Type 0
IsStarted created =
    ((created.result ≡ status_ok) × ((l : Logger) × (created.logger ≡ some l) × IsRunning l))
    ⊎ IsRefused created

start-others :
    (spawned : Bool) (l : Logger)
    → let l' = (start spawned l).1 in
      l'
      ≡ record l { worker_started = l'.worker_started; shutdown_requested = l'.shutdown_requested }
unfolding start
start-others spawned l = ground arith

start_ok :
    (spawned : Bool) (l : Logger)
    → l.worker_started ≡ false
    → (start spawned l).0 ≡ status_ok
    → (0 < length l.streams)
      × ((start spawned l).1.worker_started ≡ true)
      × ((start spawned l).1.shutdown_requested ≡ false)
unfolding start
start_ok spawned l e h = ground (arith, e, h)

flags-IsRunning :
    (c : Config) (l l' : Logger)
    → IsReady c l
    → l'
      ≡ record l { worker_started = l'.worker_started; shutdown_requested = l'.shutdown_requested }
    → 0 < length l.streams
    → l'.worker_started ≡ true
    → l'.shutdown_requested ≡ false
    → IsRunning l'
flags-IsRunning c l l' h e some_streams runs accepting = record {
  fresh = subst IsFresh (sym e) (record {
    valid = record {
      storage = h.fresh.valid.storage;
      capacity_fits = h.fresh.valid.capacity_fits;
      head_in = h.fresh.valid.head_in;
      count_in = h.fresh.valid.count_in;
      tail_is = h.fresh.valid.tail_is;
    };
    room = h.fresh.room;
    empty = h.fresh.empty;
    none_queued = h.fresh.none_queued;
    none_processed = h.fresh.none_processed;
  });
  coherent = subst IsCoherent (sym e) (record {
    within = h.coherent.within;
    unique = h.coherent.unique;
    levels = h.coherent.levels;
    small = h.coherent.small;
    cached = h.coherent.cached;
  });
  runs = runs;
  accepting = accepting;
  has_streams = omega (arith, some_streams, ap (λ m. length m.streams) e);
}

settled-IsStarted :
    (answers : Join) (result : Status) (l l' : Logger) (created : Created)
    → created.result ≡ status_ok
    → destroyed l.streams ≡ map (λ o. o.0) created.owned
    → l'
      ≡ record l { worker_started = l'.worker_started; shutdown_requested = l'.shutdown_requested }
    → (result ≡ status_ok → IsRunning l')
    → IsStarted (settled answers result l' created)
settled-IsStarted answers status_ok l l' created ok contexts e running =
    inl (ok, (l', refl, running refl))
settled-IsStarted answers fault l l' created ok contexts e running = inr (record {
  fault = λ e. cc;
  no_logger = refl;
  released = destroy-contexts answers l' ∙ ap (λ m. destroyed m.streams) e ∙ contexts;
})

start_created-IsStarted :
    (answers : Join) (spawned : Bool) (c : Config) (created : Created)
    → IsOutcome c created
    → IsStarted (start_created answers spawned created.logger created)
start_created-IsStarted answers spawned c created (inl (ok, kept, (l, e, ready, contexts))) =
    let (result, l') = start spawned l in
    subst (λ logger. IsStarted (start_created answers spawned logger created)) (sym e)
      (settled-IsStarted answers result l l' created ok contexts (start-others spawned l) (λ h.
        let (some_streams, runs, accepting) = start_ok spawned l ready.stopped h in
        flags-IsRunning c l l' ready (start-others spawned l) some_streams runs accepting))
start_created-IsStarted answers spawned c created (inr r) =
    subst (λ logger. IsStarted (start_created answers spawned logger created)) (sym r.no_logger)
      (inr r)

after_load-IsStarted :
    (creation : Creation) (spawned : Bool) (result : Status) (loaded : Option Config)
    → ((c : Config) → result ≡ status_ok → loaded ≡ some c → IsBounded c)
    → IsStarted (after_load creation spawned result loaded)
unfolding create
after_load-IsStarted creation spawned status_ok none h =
    inr (record { fault = λ e. cc; no_logger = refl; released = refl })
after_load-IsStarted creation spawned status_ok (some c) h =
    let b = h c refl refl in
    start_created-IsStarted creation.join spawned (normalize_config c)
      (create creation (some c) true)
      (create-IsOutcome creation c true b.buffer_capacity_fits (record {
        stdout_level = b.stdout_max_is_level;
        stderr_level = b.stderr_max_is_level;
        file_level = b.file_max_is_level;
        udp_level = b.udp_max_is_level;
      }))
after_load-IsStarted creation spawned fault loaded h =
    inr (record { fault = λ e. cc; no_logger = refl; released = refl })

-- A creation from a bootstrap file is all or nothing, whatever the file holds and the system answers:
-- it is answered OK with a running logger that accepts records, has at least one stream, a coherent
-- stream table and a well-formed empty queue with counters of 0; or it is answered with a fault,
-- there is no logger, and the contexts of all the streams that had been registered have been handed
-- to their `destroy`.
pub create_from_bootstrap_lem :
    (files : Bytes → Option Bytes) (config_path : Option Bytes) (creation : Creation)
    (spawned : Bool)
    → IsStarted (create_from_bootstrap files config_path creation spawned)
unfolding create_from_bootstrap
create_from_bootstrap_lem files config_path creation spawned =
    let (result, loaded) = bootstrap_load files config_path in
    after_load-IsStarted creation spawned result loaded
      (λ c e f. bootstrap_load-IsBounded files config_path (λ i. (e i, f i)))
