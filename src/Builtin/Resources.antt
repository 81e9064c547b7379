-- ===== src/Builtin/Resources.antt =====
-- What the built-in streams take from the system, they give back.
use mp_logger.Common.{
  ℕ, suc, ◌+◌, ◌≡◌, refl, sym, ap, ◌∙◌, inl, inr, Bool, false, List, [], ◌∷◌, ◌++◌, append_assoc,
  Option, none, some, arith, Bytes, ◌==◌, if◌then◌else◌, Bool-cases, Option-cases, str_eq, codes,
}
use mp_logger.Status.{Status, status_ok, config_error}
use mp_logger.Logger.{Stream, Logger}
use mp_logger.Streams.{max_streams, add_owned_stream}
use mp_logger.Files.{ensure_directory}
use mp_logger.Builtin.{
  StreamState, Resource, context, file, socket, addresses, Effect, acquire, release, Answers, Made,
  failed, destroy_context, make_stdio_stream, make_file_stream, make_udp_stream, open_file_stream,
  open_udp_stream, builtin_stream, split_stream_list, port_text,
}
use mp_logger.Builtin.Build.{
  make_named, Built, settle, finish_round, continued, register_made, build_round, build_names,
  build_builtin_streams,
}

abbrev same_resource : Resource → Resource → Bool
same_resource (context a) (context b) = a == b
same_resource (file a) (file b) = a == b
same_resource (socket a) (socket b) = a == b
same_resource (addresses a) (addresses b) = a == b
same_resource _ _ = false

-- How often a resource is taken, and how often it is given back.
abbrev pub acquired : Resource → List Effect → ℕ
acquired r [] = 0
acquired r (acquire q ∷ effects) =
    if same_resource q r then suc (acquired r effects) else acquired r effects
acquired r (release q ∷ effects) = acquired r effects

abbrev pub released : Resource → List Effect → ℕ
released r [] = 0
released r (acquire q ∷ effects) = released r effects
released r (release q ∷ effects) =
    if same_resource q r then suc (released r effects) else released r effects

-- The destruction of all these contexts, in their order.
abbrev pub destroy_all : List (ℕ × StreamState) → List Effect
destroy_all [] = []
destroy_all ((state, held) ∷ owned) = destroy_context state held ++ destroy_all owned

acquired-append :
    (r : Resource) (xs ys : List Effect) → acquired r (xs ++ ys) ≡ acquired r xs + acquired r ys
acquired-append r [] ys = omega arith
acquired-append r (acquire q ∷ xs) ys = ground (arith, acquired-append r xs ys)
acquired-append r (release q ∷ xs) ys = acquired-append r xs ys

released-append :
    (r : Resource) (xs ys : List Effect) → released r (xs ++ ys) ≡ released r xs + released r ys
released-append r [] ys = omega arith
released-append r (acquire q ∷ xs) ys = released-append r xs ys
released-append r (release q ∷ xs) ys = ground (arith, released-append r xs ys)

destroy_all-append :
    (xs ys : List (ℕ × StreamState)) → destroy_all (xs ++ ys) ≡ destroy_all xs ++ destroy_all ys
destroy_all-append [] ys = refl
destroy_all-append ((state, held) ∷ xs) ys =
    ap (λ effects. destroy_context state held ++ effects) (destroy_all-append xs ys)
    ∙ sym (append_assoc (destroy_context state held) (destroy_all xs) (destroy_all ys))

destroy_context-acquired :
    (r : Resource) (state : ℕ) (held : StreamState) → acquired r (destroy_context state held) ≡ 0
unfolding destroy_context
destroy_context-acquired r state held = ground arith

-- What has been taken is given back, by these effects or by the destruction of these contexts.
abbrev pub IsBalanced : List Effect → List (ℕ × StreamState) → Type 0
IsBalanced effects owned =
    (r : Resource) → acquired r effects ≡ released r effects + released r (destroy_all owned)

IsBalanced-append :
    (xs ys : List Effect) (os ps : List (ℕ × StreamState))
    → IsBalanced xs os
    → IsBalanced ys ps
    → IsBalanced (xs ++ ys) (os ++ ps)
IsBalanced-append xs ys os ps h k r =
    acquired-append r xs ys
    ∙ omega (
      arith,
      h r,
      k r,
      released-append r xs ys,
      released-append r (destroy_all os) (destroy_all ps),
      ap (released r) (destroy_all-append os ps),
    )

-- The context of a stream that has been made.
abbrev made_owned : Option (Stream × StreamState) → List (ℕ × StreamState)
made_owned none = []
made_owned (some (stream, state)) = (stream.stream_context, state) ∷ []

abbrev MadeIsBalanced : Made → Type 0
MadeIsBalanced made = IsBalanced made.effects (made_owned made.stream)

make_stdio_stream-IsBalanced :
    (calloc : Option ℕ) (name : Bytes) (handle lo hi : ℕ)
    → MadeIsBalanced (make_stdio_stream calloc name handle lo hi)
unfolding make_stdio_stream builtin_stream destroy_context
make_stdio_stream-IsBalanced none name handle lo hi = λ r. omega arith
make_stdio_stream-IsBalanced (some state) name handle lo hi = λ r. ground arith

open_file_stream-IsBalanced :
    (answers : Answers) (l : Logger) (state : ℕ) → MadeIsBalanced (open_file_stream answers l state)
unfolding open_file_stream builtin_stream destroy_context
open_file_stream-IsBalanced answers l state = λ r. ground arith

open_udp_stream-IsBalanced :
    (answers : Answers) (l : Logger) (list : ℕ) → MadeIsBalanced (open_udp_stream answers l list)
unfolding open_udp_stream builtin_stream destroy_context
open_udp_stream-IsBalanced answers l list = λ r. ground arith

make_file_stream-IsBalanced :
    (answers : Answers) (l : Logger) → MadeIsBalanced (make_file_stream answers l)
unfolding make_file_stream
make_file_stream-IsBalanced answers l =
    elim (Bool-cases (ensure_directory answers.directory l.config.log_directory)) [
      | inl e ↦ rw e (elim (Option-cases answers.calloc) [
        | inl f ↦ rw f (λ r. omega arith)
        | inr (state, f) ↦ rw f (open_file_stream-IsBalanced answers l state)
      ])
      | inr e ↦ rw e (λ r. omega arith)
    ]

resolved-IsBalanced :
    (answers : Answers) (l : Logger) (found : Option ℕ)
    → MadeIsBalanced (elim found [ none ↦ failed [] | some list ↦ open_udp_stream answers l list ])
resolved-IsBalanced answers l none = λ r. omega arith
resolved-IsBalanced answers l (some list) = open_udp_stream-IsBalanced answers l list

make_udp_stream-IsBalanced :
    (answers : Answers) (l : Logger) → MadeIsBalanced (make_udp_stream answers l)
unfolding make_udp_stream
make_udp_stream-IsBalanced answers l =
    resolved-IsBalanced answers l (answers.getaddrinfo l.config.udp_host (port_text l))

abbrev NamedIsBalanced : Option Made → Type 0
NamedIsBalanced none = Unit
NamedIsBalanced (some made) = MadeIsBalanced made

make_named-IsBalanced :
    (answers : Answers) (l : Logger) (name : Bytes) → NamedIsBalanced (make_named answers l name)
unfolding make_named
make_named-IsBalanced answers l name = elim (Bool-cases (str_eq name (codes "stdout"))) [
  | inl e ↦ rw e (make_stdio_stream-IsBalanced answers.calloc _ _ _ _)
  | inr e ↦ rw e (elim (Bool-cases (str_eq name (codes "stderr"))) [
    | inl f ↦ rw f (make_stdio_stream-IsBalanced answers.calloc _ _ _ _)
    | inr f ↦ rw f (elim (Bool-cases (str_eq name (codes "file"))) [
      | inl g ↦ rw g (make_file_stream-IsBalanced answers l)
      | inr g ↦ rw g (elim (Bool-cases (str_eq name (codes "udp"))) [
        | inl h ↦ rw h (make_udp_stream-IsBalanced answers l)
        | inr h ↦ rw h tt
      ])
    ])
  ])
]

settle-IsBalanced :
    (result : Status) (l : Logger) (stream : Stream) (state : StreamState) (effects : List Effect)
    → IsBalanced effects ((stream.stream_context, state) ∷ [])
    → IsBalanced
        (effects ++ (settle result l stream state).effects)
        (settle result l stream state).owned
unfolding settle
settle-IsBalanced status_ok l stream state effects h =
    IsBalanced-append effects [] ((stream.stream_context, state) ∷ []) [] h (λ r. omega arith)
settle-IsBalanced _ l stream state effects h = λ r. omega (
  arith,
  h r,
  acquired-append r effects (destroy_context stream.stream_context state),
  released-append r effects (destroy_context stream.stream_context state),
  released-append r (destroy_context stream.stream_context state) [],
  destroy_context-acquired r stream.stream_context state,
)

finish_round-IsBalanced :
    (stream : Option (Stream × StreamState)) (effects : List Effect) (l : Logger)
    → IsBalanced effects (made_owned stream)
    → IsBalanced (finish_round stream effects l).effects (finish_round stream effects l).owned
unfolding finish_round register_made
finish_round-IsBalanced none effects l h = h
finish_round-IsBalanced (some (stream, state)) effects l h =
    settle-IsBalanced (add_owned_stream l (some stream)).0 (add_owned_stream l (some stream)).1
      stream state effects h

build_round-IsBalanced :
    (made : Option Made) (l : Logger)
    → NamedIsBalanced made
    → IsBalanced (build_round made l).effects (build_round made l).owned
unfolding build_round
build_round-IsBalanced none l h = λ r. omega arith
build_round-IsBalanced (some made) l h = finish_round-IsBalanced made.stream made.effects l h

continued-IsBalanced :
    (result : Status) (round rest : Built)
    → IsBalanced round.effects round.owned
    → IsBalanced rest.effects rest.owned
    → IsBalanced (continued result round rest).effects (continued result round rest).owned
continued-IsBalanced status_ok round rest h k =
    IsBalanced-append round.effects rest.effects round.owned rest.owned h k
continued-IsBalanced _ round rest h k = h

build_names-IsBalanced :
    (answers : ℕ → Answers) (index : ℕ) (names : List Bytes) (l : Logger)
    → let done = build_names answers index names l in IsBalanced done.effects done.owned
unfolding build_names
build_names-IsBalanced answers index [] l = λ r. omega arith
build_names-IsBalanced answers index (name ∷ names) l =
    let round = build_round (make_named (answers index) l name) l in
    continued-IsBalanced round.result round (build_names answers (suc index) names round.logger)
      (build_round-IsBalanced (make_named (answers index) l name) l
        (make_named-IsBalanced (answers index) l name))
      (build_names-IsBalanced answers (suc index) names round.logger)

-- The construction of the built-in streams loses nothing: whatever the system answers, and also where
-- it fails half-way, every context, file, socket and address list has been acquired exactly as often
-- as it has been released by the construction itself or is released by the destruction of the
-- contexts of the streams that the table has taken over.
pub build_builtin_streams-IsBalanced :
    (answers : ℕ → Answers) (l : Logger) (r : Resource)
    → let done = build_builtin_streams answers l in
      acquired r done.effects ≡ released r done.effects + released r (destroy_all done.owned)
unfolding build_builtin_streams
build_builtin_streams-IsBalanced answers l r =
    of_split (split_stream_list l.config.active_streams max_streams)
  where
    of_split :
        (split : Option (List Bytes))
        → let done : Built = elim split [
          | none ↦ record {
            result = config_error;
            logger = l;
            notices = [];
            effects = [];
            owned = [];
          }
          | some names ↦ build_names answers 0 names l
        ] in
          acquired r done.effects ≡ released r done.effects + released r (destroy_all done.owned)
    of_split none = omega arith
    of_split (some names) = build_names-IsBalanced answers 0 names l r
