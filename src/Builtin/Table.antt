-- ===== src/Builtin/Table.antt =====
-- What the construction of the built-in streams leaves in the stream table.
use mathlib.Core.Path.{subst}
use mp_logger.Common.{
  ℕ, suc, ◌≤◌, ◌≡◌, refl, sym, ap, ◌∙◌, inl, inr, true, List, [], ◌∷◌, ◌++◌, append-nil,
  append_assoc, map, map-append, Option, none, some, arith, Bytes, Bool-cases, str_eq, codes,
}
use mp_logger.Status.{Status, status_ok, level_fatal, config_error}
use mp_logger.Logger.{Stream, Logger}
use mp_logger.Streams.{max_streams, add_owned_stream, destroyed}
use mp_logger.Streams.Coherence.{IsCoherent, add_owned_stream-IsCoherent}
use mp_logger.Streams.Configure.{HasBuiltinLevels}
use mp_logger.Builtin.{
  StreamState, Effect, Answers, Made, make_stdio_stream, make_file_stream, make_udp_stream,
  open_file_stream, open_udp_stream, builtin_stream, split_stream_list,
}
use mp_logger.Builtin.Build.{
  make_named, Built, settle, finish_round, continued, register_made, build_round, build_names,
  build_builtin_streams,
}

-- A built-in stream has a level as its bound, and a destructor.
abbrev IsBuiltin : Option (Stream × StreamState) → Type 0
IsBuiltin made =
    (stream : Stream) (state : StreamState)
    → made ≡ some (stream, state)
    → (stream.maximum_level ≤ level_fatal) × (stream.has_destroy ≡ true)

abbrev NamedIsBuiltin : Option Made → Type 0
NamedIsBuiltin none = Unit
NamedIsBuiltin (some made) = IsBuiltin made.stream

stdio-IsBuiltin :
    (calloc : Option ℕ) (name : Bytes) (handle lo hi : ℕ)
    → hi ≤ level_fatal
    → IsBuiltin (make_stdio_stream calloc name handle lo hi).stream
unfolding make_stdio_stream builtin_stream
stdio-IsBuiltin none name handle lo hi h = λ stream state e. ground (arith, e)
stdio-IsBuiltin (some state) name handle lo hi h = λ stream state e. ground (arith, e, h)

file-IsBuiltin :
    (answers : Answers) (l : Logger)
    → l.config.file_max_level ≤ level_fatal
    → IsBuiltin (make_file_stream answers l).stream
unfolding make_file_stream open_file_stream builtin_stream
file-IsBuiltin answers l h = λ stream state e. ground (arith, e, h)

udp-IsBuiltin :
    (answers : Answers) (l : Logger)
    → l.config.udp_max_level ≤ level_fatal
    → IsBuiltin (make_udp_stream answers l).stream
unfolding make_udp_stream open_udp_stream builtin_stream
udp-IsBuiltin answers l h = λ stream state e. ground (arith, e, h)

-- What a part of the construction does to the logger.
pub record IsBuiltOn (l : Logger) (done : Built) : Type 0 where
  pub coherent : IsCoherent done.logger
  pub contexts : destroyed done.logger.streams ≡ destroyed l.streams ++ map (λ o. o.0) done.owned
  pub others : done.logger ≡ record l {
    streams = done.logger.streams;
    enabled_level_mask = done.logger.enabled_level_mask;
  }

destroyed-append : (xs ys : List Stream) → destroyed (xs ++ ys) ≡ destroyed xs ++ destroyed ys
unfolding destroyed
destroyed-append [] ys = refl
destroyed-append (s ∷ xs) ys = ground (arith, destroyed-append xs ys)

destroyed-one : (s : Stream) → s.has_destroy ≡ true → destroyed (s ∷ []) ≡ s.stream_context ∷ []
unfolding destroyed
destroyed-one s h = ground (arith, h)

add_owned_stream-others :
    (l : Logger) (s : Stream)
    → let l' = (add_owned_stream l (some s)).1 in
      l' ≡ record l { streams = l'.streams; enabled_level_mask = l'.enabled_level_mask }
unfolding add_owned_stream
add_owned_stream-others l s = ground arith

-- The table after a registration, by its status.
abbrev added : Status → List Stream → Stream → List Stream
added status_ok streams s = streams ++ (s ∷ [])
added _ streams s = streams

add_owned_stream-streams :
    (l : Logger) (s : Stream)
    → (add_owned_stream l (some s)).1.streams ≡ added (add_owned_stream l (some s)).0 l.streams s
unfolding add_owned_stream
add_owned_stream-streams l s = ground arith

settle-contexts :
    (result : Status) (l l' : Logger) (stream : Stream) (state : StreamState)
    → l'.streams ≡ added result l.streams stream
    → stream.has_destroy ≡ true
    → destroyed l'.streams
      ≡ destroyed l.streams ++ map (λ o. o.0) (settle result l' stream state).owned
unfolding settle
settle-contexts status_ok l l' stream state e h =
    ap destroyed e
    ∙ destroyed-append l.streams (stream ∷ [])
    ∙ ap (λ contexts. destroyed l.streams ++ contexts) (destroyed-one stream h)
settle-contexts _ l l' stream state e h = ap destroyed e ∙ sym (append-nil (destroyed l.streams))

settle-logger :
    (result : Status) (l : Logger) (stream : Stream) (state : StreamState)
    → (settle result l stream state).logger ≡ l
unfolding settle
settle-logger status_ok l stream state = refl
settle-logger _ l stream state = refl

finish_round-IsBuiltOn :
    (made : Option (Stream × StreamState)) (effects : List Effect) (l : Logger)
    → IsCoherent l
    → IsBuiltin made
    → IsBuiltOn l (finish_round made effects l)
unfolding finish_round register_made
finish_round-IsBuiltOn none effects l c h = record {
  coherent = c;
  contexts = sym (append-nil (destroyed l.streams));
  others = refl;
}
finish_round-IsBuiltOn (some (stream, state)) effects l c h =
    let (result, l') = add_owned_stream l (some stream) in
    let (bound, destroys) = h stream state refl in
    let same = settle-logger result l' stream state in
    record {
      coherent = subst IsCoherent (sym same) (add_owned_stream-IsCoherent l stream c bound);
      contexts =
          ap (λ m. destroyed m.streams) same
          ∙ settle-contexts result l l' stream state (add_owned_stream-streams l stream) destroys;
      others =
          subst
            (λ m. m ≡ record l { streams = m.streams; enabled_level_mask = m.enabled_level_mask })
            (sym same) (add_owned_stream-others l stream);
    }

make_named-IsBuiltin :
    (answers : Answers) (l : Logger) (name : Bytes)
    → HasBuiltinLevels l.config
    → NamedIsBuiltin (make_named answers l name)
unfolding make_named
make_named-IsBuiltin answers l name b = elim (Bool-cases (str_eq name (codes "stdout"))) [
  | inl e ↦ rw e (stdio-IsBuiltin answers.calloc _ _ _ _ b.stdout_level)
  | inr e ↦ rw e (elim (Bool-cases (str_eq name (codes "stderr"))) [
    | inl f ↦ rw f (stdio-IsBuiltin answers.calloc _ _ _ _ b.stderr_level)
    | inr f ↦ rw f (elim (Bool-cases (str_eq name (codes "file"))) [
      | inl g ↦ rw g (file-IsBuiltin answers l b.file_level)
      | inr g ↦ rw g (elim (Bool-cases (str_eq name (codes "udp"))) [
        | inl h ↦ rw h (udp-IsBuiltin answers l b.udp_level)
        | inr h ↦ rw h tt
      ])
    ])
  ])
]

unchanged-IsBuiltOn :
    (l : Logger) (result : Status)
    → IsCoherent l
    → IsBuiltOn l (record { result = result; logger = l; notices = []; effects = []; owned = [] })
unchanged-IsBuiltOn l result c = record {
  coherent = c;
  contexts = sym (append-nil (destroyed l.streams));
  others = refl;
}

build_round-IsBuiltOn :
    (made : Option Made) (l : Logger)
    → IsCoherent l
    → NamedIsBuiltin made
    → IsBuiltOn l (build_round made l)
unfolding build_round
build_round-IsBuiltOn none l c h = unchanged-IsBuiltOn l config_error c
build_round-IsBuiltOn (some made) l c h = finish_round-IsBuiltOn made.stream made.effects l c h

continued-IsBuiltOn :
    (result : Status) (l : Logger) (round rest : Built)
    → IsBuiltOn l round
    → IsBuiltOn round.logger rest
    → IsBuiltOn l (continued result round rest)
continued-IsBuiltOn status_ok l round rest h k = record {
  coherent = k.coherent;
  contexts =
      k.contexts
      ∙ ap (λ contexts. contexts ++ map (λ o. o.0) rest.owned) h.contexts
      ∙ append_assoc (destroyed l.streams) (map (λ o. o.0) round.owned) (map (λ o. o.0) rest.owned)
      ∙ ap (λ contexts. destroyed l.streams ++ contexts)
          (sym (map-append (λ o. o.0) round.owned rest.owned));
  others =
      k.others
      ∙ ap {A = Logger} {B = Logger}
          (λ m. record m {
            streams = rest.logger.streams;
            enabled_level_mask = rest.logger.enabled_level_mask;
          })
          h.others;
}
continued-IsBuiltOn _ l round rest h k = h

build_names-IsBuiltOn :
    (answers : ℕ → Answers) (index : ℕ) (names : List Bytes) (l : Logger)
    → IsCoherent l
    → HasBuiltinLevels l.config
    → IsBuiltOn l (build_names answers index names l)
unfolding build_names
build_names-IsBuiltOn answers index [] l c b = unchanged-IsBuiltOn l status_ok c
build_names-IsBuiltOn answers index (name ∷ names) l c b =
    let round = build_round (make_named (answers index) l name) l in
    let h =
      build_round-IsBuiltOn (make_named (answers index) l name) l c
        (make_named-IsBuiltin (answers index) l name b) in
    let same : round.logger.config ≡ l.config = ap (λ m. m.config) h.others in
    continued-IsBuiltOn round.result l round (build_names answers (suc index) names round.logger) h
      (build_names-IsBuiltOn answers (suc index) names round.logger h.coherent
        (subst HasBuiltinLevels (sym same) b))

-- The construction of the built-in streams keeps the stream table coherent (within its array, names
-- unique, the cached mask that of the streams), the contexts that a destruction of the table hands to
-- `destroy` are those that it handed over before and then those of the streams that the construction
-- has registered, and nothing else of the logger changes, whatever the system answers. The table was
-- coherent and the four upper bounds of the configuration are levels.
pub build_builtin_streams-IsBuiltOn :
    (answers : ℕ → Answers) (l : Logger)
    → IsCoherent l
    → HasBuiltinLevels l.config
    → IsBuiltOn l (build_builtin_streams answers l)
unfolding build_builtin_streams
build_builtin_streams-IsBuiltOn answers l c b =
    of_split (split_stream_list l.config.active_streams max_streams)
  where
    of_split :
        (split : Option (List Bytes))
        → IsBuiltOn l (elim split [
          | none ↦ record {
            result = config_error;
            logger = l;
            notices = [];
            effects = [];
            owned = [];
          }
          | some names ↦ build_names answers 0 names l
        ])
    of_split none = unchanged-IsBuiltOn l config_error c
    of_split (some names) = build_names-IsBuiltOn answers 0 names l c b
