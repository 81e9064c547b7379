-- ===== src/Create/Outcome.antt =====
-- What `mp_logger_create` returns.
use mathlib.Core.Path.{subst}
use mp_logger.Common.{
  ℕ, ◌<◌, ◌≡◌, ◌≢◌, ◌⊎◌, refl, sym, ap, ◌∙◌, inl, inr, Bool, true, false, List, [], ◌++◌, map,
  Option, none, some, arith, Bool-cases, size_mod,
}
use mp_logger.Status.{Status, status_ok, invalid_argument, io_error, config_error}
use mp_logger.Config.{Config, validate_config}
use mp_logger.Logger.{Logger, Stream}
use mp_logger.Streams.{normalize_config, destroy_streams, destroyed}
use mp_logger.Storage.{allocate_buffers}
use mp_logger.Backup.{backup_open, backup_close}
use mp_logger.Builtin.Build.{Built, build_builtin_streams}
use mp_logger.Streams.Configure.{HasBuiltinLevels}
use mp_logger.Builtin.Table.{IsBuiltOn, build_builtin_streams-IsBuiltOn}
use mp_logger.Lifecycle.{Join, shutdown}
use mp_logger.Queue.Refine.{HasRoom}
use mp_logger.Create.Prefixes.{HasSafePrefixes, normalize_config-HasSafePrefixes}
use mp_logger.Create.Ready.{
  IsReady, built-IsReady, opened-IsReady, backup_open-others, validate_config-room, blank-IsReady,
  allocate_buffers-length, blank-streams, normalize_config-room, normalize_config-HasBuiltinLevels,
  normalize_config-buffer,
}
use mp_logger.Create.{
  Destroyed, destroy, Creation, Created, blank_logger, refused, finish_create, after_backup,
  after_blocks, build_logger, create,
}

pub destroy-contexts :
    (answers : Join) (l : Logger) → (destroy answers l).contexts ≡ destroyed l.streams
unfolding destroy shutdown destroy_streams backup_close
destroy-contexts answers l = ground arith

-- What was handed to `destroy` callbacks.
abbrev pub contexts_of : Option Destroyed → List ℕ
contexts_of none = []
contexts_of (some d) = d.contexts

pub record IsRefused (created : Created) : Type 0 where
  pub fault : created.result ≢ status_ok
  pub no_logger : created.logger ≡ none
  pub released : contexts_of created.undone ≡ map (λ o. o.0) created.owned

-- The creation has succeeded with a logger that is ready, and owns the contexts of its streams; or
-- there is none.
abbrev pub IsOutcome : Config → Created → Type 0
IsOutcome c created =
    ((created.result ≡ status_ok)
      × (created.undone ≡ none)
      × ((l : Logger) × (created.logger ≡ some l)
          × IsReady c l
          × (destroyed l.streams ≡ map (λ o. o.0) created.owned)))
    ⊎ IsRefused created

destroyed-none : {streams : List Stream} → streams ≡ [] → destroyed streams ≡ []
unfolding destroyed
destroyed-none e = ap destroyed e

-- The streams of a table that was empty are those that the construction has registered.
owned_contexts :
    (l : Logger) (done : Built)
    → destroyed l.streams ≡ []
    → IsBuiltOn l done
    → destroyed done.logger.streams ≡ map (λ o. o.0) done.owned
owned_contexts l done e b = b.contexts ∙ ap (λ contexts. contexts ++ map (λ o. o.0) done.owned) e

finish_create-IsOutcome :
    (answers : Join) (result : Status) (c : Config) (l : Logger) (done : Built)
    → destroyed l.streams ≡ []
    → IsReady c l
    → IsBuiltOn l done
    → IsOutcome c (finish_create answers result done)
finish_create-IsOutcome answers status_ok c l done e h b =
    inl (refl, refl, (done.logger, refl, built-IsReady c l done h b, owned_contexts l done e b))
finish_create-IsOutcome answers fault c l done e h b = inr (record {
  fault = λ e. cc;
  no_logger = refl;
  released = destroy-contexts answers done.logger ∙ owned_contexts l done e b;
})

after_backup-IsOutcome :
    (creation : Creation) (result : Status) (c : Config) (l : Logger)
    → l.streams ≡ []
    → IsReady c l
    → HasBuiltinLevels c
    → IsOutcome c (after_backup creation result l)
after_backup-IsOutcome creation status_ok c l e h b =
    let done = build_builtin_streams creation.streams l in
    let built =
      build_builtin_streams-IsBuiltOn creation.streams l h.coherent
        (subst HasBuiltinLevels (sym h.same_config) b) in
    finish_create-IsOutcome creation.join done.result c l done (destroyed-none e) h built
after_backup-IsOutcome creation fault c l e h b = inr (record {
  fault = λ e. cc;
  no_logger = refl;
  released = destroy-contexts creation.join l ∙ destroyed-none e;
})

after_blocks-IsOutcome :
    (creation : Creation) (result : Status) (c : Config) (l : Logger)
    → l.streams ≡ []
    → (result ≡ status_ok → IsReady c l)
    → HasBuiltinLevels c
    → IsOutcome c (after_blocks creation result l)
after_blocks-IsOutcome creation status_ok c l e h b =
    let (result, opened) = backup_open creation.backup_directory creation.open_backup l in
    let others = backup_open-others creation.backup_directory creation.open_backup l in
    let same : opened.streams ≡ l.streams = ap (λ m. m.streams) others in
    after_backup-IsOutcome creation result c opened (same ∙ e)
      (opened-IsReady c l opened (h refl) others) b
after_blocks-IsOutcome creation fault c l e h b = inr (record {
  fault = λ e. cc;
  no_logger = refl;
  released = destroy-contexts creation.join l ∙ destroyed-none e;
})

build_logger-IsOutcome :
    (creation : Creation) (c : Config)
    → 0 < c.buffer_capacity
    → c.buffer_capacity < size_mod
    → HasRoom c
    → HasBuiltinLevels c
    → IsOutcome c (build_logger creation c)
unfolding build_logger
build_logger-IsOutcome creation c positive small room b =
    let (result, slots) = allocate_buffers creation.blocks c in
    let l : Logger = record (blank_logger creation.run_time c) { slots = slots } in
    after_blocks-IsOutcome creation result c l (blank-streams creation.run_time c)
      (λ e.
        blank-IsReady creation.run_time c slots positive small room
          (allocate_buffers-length creation.blocks c e))
      b

refused-IsRefused : (fault : Status) → fault ≢ status_ok → IsRefused (refused fault none)
refused-IsRefused fault h = record { fault = h; no_logger = refl; released = refl }

pub create-IsOutcome :
    (creation : Creation) (c : Config) (wanted : Bool)
    → c.buffer_capacity < size_mod
    → HasBuiltinLevels c
    → IsOutcome (normalize_config c) (create creation (some c) wanted)
unfolding create build_logger
create-IsOutcome creation c false small b = inr (refused-IsRefused invalid_argument (λ e. cc))
create-IsOutcome creation c true small b = elim (Bool-cases (validate_config c)) [
  | inr e ↦ rw e (inr (refused-IsRefused config_error (λ e. cc)))
  | inl e ↦ rw e (elim (Bool-cases creation.allocated) [
    | inr f ↦ rw f (inr (refused-IsRefused io_error (λ e. cc)))
    | inl f ↦
        let (positive, room) = validate_config-room c e in
        rw f (
          build_logger-IsOutcome creation (normalize_config c)
            (omega (arith, positive, normalize_config-buffer c))
            (omega (arith, small, normalize_config-buffer c)) (normalize_config-room c room)
            (normalize_config-HasBuiltinLevels c b))
  ])
]

-- A creation is all or nothing, whatever the system answers: it is answered OK with a logger whose
-- queue is well-formed and empty, whose counters are 0, whose stream table is coherent, which is not
-- started and accepts records, and which has the configuration that was asked for, but for the two
-- prefixes of file names, which are as long, have the same letters, digits, `-` and `_` at the same
-- places and a `_` at all others, and nothing has been destroyed; or it is answered with a fault, there is no logger, and the contexts of all the
-- streams that had been registered have been handed to their `destroy`; the contexts of the table of
-- a new logger are those of the streams that were registered. The capacity of the queue is
-- a `size_t` and the four upper bounds of the configuration are levels.
pub create_lem :
    (creation : Creation) (c : Config) (wanted : Bool)
    → c.buffer_capacity < size_mod
    → HasBuiltinLevels c
    → (given : Config) × HasSafePrefixes c given × IsOutcome given (create creation (some c) wanted)
create_lem creation c wanted small b = (
  normalize_config c,
  normalize_config-HasSafePrefixes c,
  create-IsOutcome creation c wanted small b,
)
