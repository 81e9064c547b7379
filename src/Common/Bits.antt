-- ===== src/Common/Bits.antt =====
-- Facts about `|` and `&` on words of six bits, by evaluation of every value.
use Prim.Native.Nat.{bit_and, bit_or}
use mp_logger.Common.{
  ℕ, zero, suc, ◌^◌, ◌<◌, ◌≡◌, refl, Bool, true, false, ◌&&◌, ◌||◌, not, arith, ◌==◌, ltb, ltb→lt,
}

abbrev pub all_below : ℕ → (ℕ → Bool) → Bool
all_below zero p = true
all_below (suc n) p = p n && all_below n p

pub all_below_sound : (n : ℕ) (p : ℕ → Bool) (x : ℕ) → all_below n p ≡ true → x < n → p x ≡ true
all_below_sound zero p x h lt = absurd (omega arith)
all_below_sound (suc n) p x h lt = ground (arith, all_below_sound n p x)

-- `(mask & (1 << bit)) != 0`.
abbrev pub test_bit : ℕ → ℕ → Bool
test_bit mask bit = not (bit_and mask (2 ^ bit) == 0)

abbrev pub same : Bool → Bool → Bool
same true b = b
same false b = not b

pub same_iff : (a b : Bool) → same a b ≡ true → a ≡ b
same_iff a b h = ground arith

abbrev pub level_bits : ℕ
level_bits = 6

abbrev pub mask_bound : ℕ
mask_bound = 2 ^ level_bits

or_ok : ℕ → ℕ → ℕ → Bool
or_ok b a l = same (test_bit (bit_or a b) l) (test_bit a l || test_bit b l)

or_table :
    all_below mask_bound (λ a. all_below mask_bound (λ b. all_below level_bits (or_ok b a))) ≡ true
unfolding or_ok
or_table = refl

-- A bit is set in `a | b` exactly if it is set in one of the two.
pub test_bit-bit_or :
    (a b l : ℕ)
    → a < mask_bound
    → b < mask_bound
    → l < level_bits
    → test_bit (bit_or a b) l ≡ (test_bit a l || test_bit b l)
test_bit-bit_or a b l ha hb hl =
    let row =
      all_below_sound mask_bound (λ x. all_below mask_bound (λ y. all_below level_bits (or_ok y x)))
        a or_table ha in
    let cell = all_below_sound mask_bound (λ y. all_below level_bits (or_ok y a)) b row hb in
    let bit = all_below_sound level_bits (or_ok b a) l cell hl in same_iff _ _ (unfold or_ok in bit)

or_table_bound :
    all_below mask_bound (λ a. all_below mask_bound (λ b. ltb (bit_or a b) mask_bound)) ≡ true
or_table_bound = refl

pub bit_or-lt : (a b : ℕ) → a < mask_bound → b < mask_bound → bit_or a b < mask_bound
bit_or-lt a b ha hb =
    let row =
      all_below_sound mask_bound (λ x. all_below mask_bound (λ y. ltb (bit_or x y) mask_bound)) a
        or_table_bound ha in
    ltb→lt _ _ (all_below_sound mask_bound (λ y. ltb (bit_or a y) mask_bound) b row hb)
