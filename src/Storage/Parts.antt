-- ===== src/Storage/Parts.antt =====
-- The parts of two slots do not overlap, and lie in the blocks that were asked for.
use native.Mathlib.Nat.{mul-le-mul_right}
use mp_logger.Common.{ℕ, suc, ◌+◌, ◌*◌, ◌≤◌, ◌<◌, ◌≡◌, ap, ◌∙◌, arith, size_mod}
use mp_logger.Config.{Config}
use mp_logger.Storage.{mul_size, Requests, requests, SlotParts, parts}

-- A part of this capacity at the first place ends before the second begins, and the part there ends
-- in the block of this number of elements.
abbrev pub AreApart : ℕ → ℕ → ℕ → ℕ → Type 0
AreApart capacity first second number = (first + capacity ≤ second) × (second + capacity ≤ number)

step-mul : (a b c : ℕ) → a < b → a * c + c ≤ b * c
step-mul a b c h = omega (arith, mul-le-mul_right {m = suc a} {n = b} c h)

mul_size-exact : (a b c : ℕ) → a ≤ b → b * c < size_mod → mul_size a c ≡ a * c
mul_size-exact a b c h fits = omega (arith, mul-le-mul_right {m = a} {n = b} c h)

flat-AreApart :
    (i j n c : ℕ)
    → i < j
    → j < n
    → n * c < size_mod
    → AreApart c (mul_size i c) (mul_size j c) (mul_size n c)
flat-AreApart i j n c h k fits =
    rw
      (
        mul_size-exact i n c (omega arith) fits,
        mul_size-exact j n c (omega arith) fits,
        mul_size-exact n n c (omega arith) fits,
      )
      (step-mul i j c h, step-mul j n c k)

nested-exact :
    (a n f c : ℕ)
    → a ≤ n
    → n * f < size_mod
    → n * f * c < size_mod
    → mul_size (mul_size a f) c ≡ a * f * c
nested-exact a n f c h fits fits' =
    ap (λ b. mul_size b c) (mul_size-exact a n f h fits)
    ∙ mul_size-exact (a * f) (n * f) c (mul-le-mul_right {m = a} {n = n} f h) fits'

nested-step : (a b f c : ℕ) → a < b → a * f * c + f * c ≤ b * f * c
nested-step a b f c h = omega (
  arith,
  mul-le-mul_right {m = suc a * f} {n = b * f} c (mul-le-mul_right {m = suc a} {n = b} f h),
)

nested-AreApart :
    (i j n f c : ℕ)
    → i < j
    → j < n
    → n * f < size_mod
    → n * f * c < size_mod
    → AreApart
        (f * c)
        (mul_size (mul_size i f) c)
        (mul_size (mul_size j f) c)
        (mul_size (mul_size n f) c)
nested-AreApart i j n f c h k fits fits' =
    rw
      (
        nested-exact i n f c (omega arith) fits fits',
        nested-exact j n f c (omega arith) fits fits',
        nested-exact n n f c (omega arith) fits fits',
      )
      (nested-step i j f c h, nested-step j n f c k)

-- The products of the capacities that `mp_logger_allocate_buffers` forms are below 2^64.
pub record HasSmallBlocks (c : Config) : Type 0 where
  pub message_small : c.buffer_capacity * c.message_capacity < size_mod
  pub context_small : c.buffer_capacity * c.context_capacity < size_mod
  pub fields_small : c.buffer_capacity * c.field_capacity < size_mod
  pub keys_small : c.buffer_capacity * c.field_capacity * c.field_key_capacity < size_mod
  pub values_small : c.buffer_capacity * c.field_capacity * c.field_value_capacity < size_mod

-- The five parts of a slot and those of a later one.
pub record ArePartsApart (c : Config) (asked : Requests) (first second : SlotParts) : Type 0 where
  pub messages :
      AreApart c.message_capacity first.message_buffer second.message_buffer
        asked.message_storage.number
  pub contexts :
      AreApart c.context_capacity first.context_buffer second.context_buffer
        asked.context_storage.number
  pub fields : AreApart c.field_capacity first.fields second.fields asked.field_storage.number
  pub keys :
      AreApart
        (c.field_capacity * c.field_key_capacity)
        first.field_key_storage
        second.field_key_storage
        asked.field_key_storage.number
  pub values :
      AreApart
        (c.field_capacity * c.field_value_capacity)
        first.field_string_storage
        second.field_string_storage
        asked.field_string_storage.number

-- The storage of the queue is partitioned: of two different slots, the message buffer, context
-- buffer, fields, field keys and field texts of the first end where those of the second begin or
-- before, and those of the second end within their blocks, whose sizes are the ones that were asked
-- for, in the wrapping arithmetic of the code. The products of the capacities are below 2^64, which
-- the code does not check.
pub parts_lem :
    (slot_size field_size : ℕ) (c : Config) (i j : ℕ)
    → HasSmallBlocks c
    → i < j
    → j < c.buffer_capacity
    → ArePartsApart c (requests slot_size field_size c) (parts c i) (parts c j)
unfolding requests parts
parts_lem slot_size field_size c i j small h k = record {
  messages = flat-AreApart i j c.buffer_capacity c.message_capacity h k small.message_small;
  contexts = flat-AreApart i j c.buffer_capacity c.context_capacity h k small.context_small;
  fields = flat-AreApart i j c.buffer_capacity c.field_capacity h k small.fields_small;
  keys =
      nested-AreApart i j c.buffer_capacity c.field_capacity c.field_key_capacity h k
        small.fields_small small.keys_small;
  values =
      nested-AreApart i j c.buffer_capacity c.field_capacity c.field_value_capacity h k
        small.fields_small small.values_small;
}
