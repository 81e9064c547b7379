-- ===== src/Streams/Coherence.antt =====
-- The cached level mask agrees with the stream table, and what the operations on the table keep.
use Prim.Native.Nat.{bit_or}
use mp_logger.Common.{
  ◌≤◌, ◌<◌, ◌≡◌, refl, inl, inr, false, not, ◌||◌, List, [], ◌∷◌, ◌++◌, some, arith, Bytes, leb,
  All-append, Bool-cases, length, length-append, str_eq, str_eq_iff, is_empty,
}
use mp_logger.Common.Bits.{test_bit, mask_bound, test_bit-bit_or, bit_or-lt}
use mp_logger.Status.{Level, level_fatal}
use mp_logger.Logger.{Stream, Logger}
use mp_logger.Streams.{max_streams, level_in_range, level_range_mask, has_name, add_owned_stream}
use mp_logger.Streams.Mask.{test_bit-level_range_mask, level_range_mask-lt, accepts, HasLevels}

-- No two streams of the table have one name.
abbrev pub HasUniqueNames : List Stream → Type 0
HasUniqueNames [] = Unit
HasUniqueNames (s ∷ streams) = (has_name s.stream_name streams ≡ false) × HasUniqueNames streams

-- The table is within its array, names are unique, bounds are levels, and the mask has exactly the
-- bits of the levels that some stream accepts.
pub record IsCoherent (l : Logger) : Type 0 where
  pub within : length l.streams ≤ max_streams
  pub unique : HasUniqueNames l.streams
  pub levels : HasLevels l.streams
  pub small : l.enabled_level_mask < mask_bound
  pub cached :
      (level : Level)
      → level ≤ level_fatal
      → test_bit l.enabled_level_mask level ≡ accepts l.streams level

accepts-append :
    (streams : List Stream) (s : Stream) (level : Level)
    → accepts (streams ++ (s ∷ [])) level
      ≡ (accepts streams level || level_in_range level s.minimum_level s.maximum_level)
accepts-append [] s level = ground arith
accepts-append (t ∷ streams) s level = ground (arith, accepts-append streams s level)

has_name-append :
    (name : Bytes) (streams : List Stream) (s : Stream)
    → has_name name (streams ++ (s ∷ [])) ≡ (has_name name streams || str_eq s.stream_name name)
unfolding has_name
has_name-append name [] s = ground arith
has_name-append name (t ∷ streams) s = ground (arith, has_name-append name streams s)

HasUniqueNames-append :
    (streams : List Stream) (s : Stream)
    → HasUniqueNames streams
    → has_name s.stream_name streams ≡ false
    → HasUniqueNames (streams ++ (s ∷ []))
unfolding has_name
HasUniqueNames-append [] s u h = (refl, tt)
HasUniqueNames-append (t ∷ streams) s u h = (
  ground (
    arith,
    has_name-append t.stream_name streams s,
    str_eq_iff t.stream_name s.stream_name,
    str_eq_iff s.stream_name t.stream_name,
    u.0,
  ),
  HasUniqueNames-append streams s u.1 (ground arith),
)

-- The logger after a successful registration.
abbrev pub with_stream : Logger → Stream → Logger
with_stream l s = record l {
  streams = l.streams ++ (s ∷ []);
  enabled_level_mask =
      bit_or l.enabled_level_mask (level_range_mask s.minimum_level s.maximum_level);
}

with_stream-IsCoherent :
    (l : Logger) (s : Stream)
    → IsCoherent l
    → s.maximum_level ≤ level_fatal
    → length l.streams < max_streams
    → has_name s.stream_name l.streams ≡ false
    → IsCoherent (with_stream l s)
with_stream-IsCoherent l s c hs room new =
    let range = level_range_mask s.minimum_level s.maximum_level in
    let fits = level_range_mask-lt s.minimum_level s.maximum_level hs in
    record {
      within = omega (arith, length-append l.streams (s ∷ []));
      unique = HasUniqueNames-append l.streams s c.unique new;
      levels = All-append _ l.streams (s ∷ []) c.levels (hs, tt);
      small = bit_or-lt l.enabled_level_mask range c.small fits;
      cached = λ level h. ground (
        arith,
        c.cached level h,
        accepts-append l.streams s level,
        test_bit-bit_or l.enabled_level_mask range level c.small fits,
        test_bit-level_range_mask s.minimum_level s.maximum_level level hs h,
      );
    }

-- Registration, accepted or refused, keeps the table coherent, for a stream whose upper bound is a
-- level.
pub add_owned_stream-IsCoherent :
    (l : Logger) (s : Stream)
    → IsCoherent l
    → s.maximum_level ≤ level_fatal
    → IsCoherent (add_owned_stream l (some s)).1
unfolding add_owned_stream
add_owned_stream-IsCoherent l s c hs =
    elim (Bool-cases (not s.has_write || is_empty s.stream_name)) [
      | inl e ↦ rw e c
      | inr e ↦ rw e (elim (Bool-cases (leb max_streams (length l.streams))) [
        | inl f ↦ rw f c
        | inr f ↦ rw f (elim (Bool-cases (has_name s.stream_name l.streams)) [
          | inl n ↦ rw n c
          | inr n ↦ rw n (with_stream-IsCoherent l s c hs (ground arith) n)
        ])
      ])
    ]
