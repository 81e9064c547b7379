-- ===== src/Streams/Mask.antt =====
-- The bits of a level mask.
use Prim.Native.Nat.{bit_or}
use native.Mathlib.Decide.{dec_lt}
use mp_logger.Common.{
  ℕ, ◌≤◌, ◌<◌, ◌≡◌, refl, Bool, true, false, ◌||◌, List, [], ◌∷◌, arith, ltb, All, ltb→lt,
}
use mp_logger.Common.Bits.{
  all_below, all_below_sound, test_bit, level_bits, mask_bound, same, same_iff, test_bit-bit_or,
  bit_or-lt,
}
use mp_logger.Status.{Level, level_fatal}
use mp_logger.Logger.{Stream}
use mp_logger.Streams.{level_in_range, mask_from, level_range_mask, streams_mask}

range_ok : ℕ → ℕ → ℕ → Bool
range_ok minimum maximum level =
    same (test_bit (level_range_mask minimum maximum) level) (level_in_range level minimum maximum)

range_table :
    all_below level_bits
      (λ maximum. all_below level_bits (λ minimum. all_below level_bits (range_ok minimum maximum)))
    ≡ true
unfolding range_ok level_range_mask mask_from level_in_range
range_table = refl

bound_table :
    all_below level_bits (λ maximum.
      all_below level_bits (λ minimum. ltb (level_range_mask minimum maximum) mask_bound))
    ≡ true
unfolding level_range_mask mask_from
bound_table = refl

-- A minimum above every level is above the maximum.
range_mask_empty :
    (minimum maximum : Level) → maximum < minimum → level_range_mask minimum maximum ≡ 0
unfolding level_range_mask
range_mask_empty minimum maximum h = ground arith

pub test_bit-zero : (l : ℕ) → l < level_bits → test_bit 0 l ≡ false
test_bit-zero l h =
    same_iff _ _ (all_below_sound level_bits (λ k. same (test_bit 0 k) false) l refl h)

-- For bounds up to the highest level, the mask of a range has the bits of its levels and no others.
pub test_bit-level_range_mask :
    (minimum maximum level : Level)
    → maximum ≤ level_fatal
    → level ≤ level_fatal
    → test_bit (level_range_mask minimum maximum) level ≡ level_in_range level minimum maximum
test_bit-level_range_mask minimum maximum level hm hl = elim (dec_lt maximum minimum) [
  | yes above ↦
      rw (range_mask_empty minimum maximum above, test_bit-zero level (omega arith))
        (unfold level_in_range in ground arith)
  | no below ↦
      let row =
        all_below_sound level_bits
          (λ m. all_below level_bits (λ n. all_below level_bits (range_ok n m))) maximum range_table
          (omega arith) in
      let cell =
        all_below_sound level_bits (λ n. all_below level_bits (range_ok n maximum)) minimum row
          (omega arith) in
      let bit = all_below_sound level_bits (range_ok minimum maximum) level cell (omega arith) in
      same_iff _ _ (unfold range_ok in bit)
]

pub level_range_mask-lt :
    (minimum maximum : Level)
    → maximum ≤ level_fatal
    → level_range_mask minimum maximum < mask_bound
level_range_mask-lt minimum maximum hm = elim (dec_lt maximum minimum) [
  | yes above ↦ rw (range_mask_empty minimum maximum above) (omega arith)
  | no below ↦
      let row =
        all_below_sound level_bits
          (λ m. all_below level_bits (λ n. ltb (level_range_mask n m) mask_bound)) maximum
          bound_table (omega arith) in
      ltb→lt _ _ (
        all_below_sound level_bits (λ n. ltb (level_range_mask n maximum) mask_bound) minimum row
          (omega arith))
]

-- Some stream accepts the level.
abbrev pub accepts : List Stream → Level → Bool
accepts [] level = false
accepts (s ∷ streams) level =
    level_in_range level s.minimum_level s.maximum_level || accepts streams level

-- The upper bounds of the streams are levels.
abbrev pub HasLevels : List Stream → Type 0
HasLevels = All (λ s. s.maximum_level ≤ level_fatal)

pub streams_mask_lem :
    (streams : List Stream) (mask level : ℕ)
    → HasLevels streams
    → mask < mask_bound
    → level ≤ level_fatal
    → (streams_mask streams mask < mask_bound)
      × (test_bit (streams_mask streams mask) level
          ≡ (test_bit mask level || accepts streams level))
unfolding streams_mask
streams_mask_lem [] mask level h hm hl = (hm, ground arith)
streams_mask_lem (s ∷ streams) mask level h hm hl =
    let range = level_range_mask s.minimum_level s.maximum_level in
    let small = level_range_mask-lt s.minimum_level s.maximum_level h.0 in
    let ih =
      streams_mask_lem streams (bit_or mask range) level h.1 (bit_or-lt mask range hm small) hl in
    (
      ih.0,
      ground (
        arith,
        ih.1,
        test_bit-bit_or mask range level hm small,
        test_bit-level_range_mask s.minimum_level s.maximum_level level h.0 hl,
      ),
    )
