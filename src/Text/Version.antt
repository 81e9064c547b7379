-- ===== src/Text/Version.antt =====
-- `mp_logger_is_build_version_valid`.
use mp_logger.Common.{
  ℕ, zero, suc, ◌+◌, ◌%◌, ◌^◌, ◌≤◌, ◌<◌, ◌≡◌, ◌↔◌, ◌⊎◌, refl, sym, ap, ◌∙◌, inl, inr, Bool, true,
  false, [], ◌∷◌, ◌++◌, append-nil, arith, Bytes, length, All,
}
use mp_logger.Text.{is_digit, version_loop, is_build_version_valid}

-- The loop's counter is a 32-bit number.
abbrev pub component_mod : ℕ
component_mod = 2 ^ 32

abbrev pub IsDigit : ℕ → Type 0
IsDigit c = is_digit c ≡ true

-- A run of digits, not empty unless a digit of it has been read before.
abbrev pub IsRun : Bool → Bytes → Type 0
IsRun saw_digit digits = All IsDigit digits × ((saw_digit ≡ true) ⊎ (0 < length digits))

-- A run of digits, and so many further ones, each behind a dot and not empty.
abbrev pub HasRuns : ℕ → Bool → Bytes → Type 0
HasRuns zero saw_digit value = IsRun saw_digit value
HasRuns (suc dots) saw_digit value =
    (digits : Bytes) × (rest : Bytes) × (value ≡ digits ++ (b'.' ∷ rest))
    × IsRun saw_digit digits
    × HasRuns dots false rest

-- What one byte in front does.
HasRuns-digit :
    (dots : ℕ) (saw_digit : Bool) (c : ℕ) (value : Bytes)
    → IsDigit c
    → HasRuns dots true value
    → HasRuns dots saw_digit (c ∷ value)
HasRuns-digit zero saw_digit c value d h = ((d, h.0), inr (omega arith))
HasRuns-digit (suc dots) saw_digit c value d (digits, rest, e, run, more) =
    (c ∷ digits, rest, ap (◌∷◌ c) e, ((d, run.0), inr (omega arith)), more)

HasRuns-dot :
    (dots : ℕ) (value : Bytes) → HasRuns dots false value → HasRuns (suc dots) true (b'.' ∷ value)
HasRuns-dot dots value h = ([], value, refl, (tt, inl refl), h)

-- What the loop makes of a first byte.
version_loop_step :
    (c : ℕ) (value : Bytes) (count : ℕ) (saw_digit : Bool)
    → version_loop (c ∷ value) count saw_digit ≡ true
    → (IsDigit c × (version_loop value count true ≡ true))
      ⊎ ((c ≡ b'.')
          × (saw_digit ≡ true)
          × (version_loop value ((count + 1) % component_mod) false ≡ true))
unfolding version_loop
version_loop_step c value count saw_digit h = ground arith

version_loop-le :
    (value : Bytes) (count : ℕ) (saw_digit : Bool)
    → count + length value < component_mod
    → version_loop value count saw_digit ≡ true
    → count ≤ 2
version_loop-le [] count saw_digit fits h = unfold version_loop in ground arith
version_loop-le (c ∷ value) count saw_digit fits h =
    elim (version_loop_step c value count saw_digit h) [
      | inl (d, more) ↦ version_loop-le value count true (omega arith) more
      | inr (d, s, more) ↦
          omega
            (arith, version_loop-le value ((count + 1) % component_mod) false (omega arith) more)
    ]

version_loop_sound :
    (value : Bytes) (count dots : ℕ) (saw_digit : Bool)
    → count + dots ≡ 2
    → count + length value < component_mod
    → version_loop value count saw_digit ≡ true
    → HasRuns dots saw_digit value
version_loop_sound [] count zero saw_digit e fits h =
    (tt, inl (unfold version_loop in ground arith))
version_loop_sound [] count (suc dots) saw_digit e fits h =
    absurd (unfold version_loop in ground arith)
version_loop_sound (c ∷ value) count zero saw_digit e fits h =
    elim (version_loop_step c value count saw_digit h) [
      | inl (d, more) ↦
          HasRuns-digit zero saw_digit c value d
            (version_loop_sound value count zero true e (omega arith) more)
      | inr (d, s, more) ↦ absurd (
          omega
            (arith, version_loop-le value ((count + 1) % component_mod) false (omega arith) more))
    ]
version_loop_sound (c ∷ value) count (suc dots) saw_digit e fits h =
    elim (version_loop_step c value count saw_digit h) [
      | inl (d, more) ↦
          HasRuns-digit (suc dots) saw_digit c value d
            (version_loop_sound value count (suc dots) true e (omega arith) more)
      | inr (d, s, more) ↦
          rw (d, s)
            (HasRuns-dot dots value (
              version_loop_sound value ((count + 1) % component_mod) dots false (omega arith)
                (omega arith) more))
    ]

version_loop-digits :
    (digits rest : Bytes) (count : ℕ) (saw_digit : Bool)
    → IsRun saw_digit digits
    → version_loop (digits ++ rest) count saw_digit ≡ version_loop rest count true
unfolding version_loop
version_loop-digits [] rest count saw_digit (d, inl s) = ap (version_loop rest count) s
version_loop-digits [] rest count saw_digit (d, inr s) = absurd (omega arith)
version_loop-digits (c ∷ digits) rest count saw_digit (d, s) =
    ground (arith, version_loop-digits digits rest count true (d.1, inl refl))

version_loop-dot :
    (rest : Bytes) (count : ℕ)
    → version_loop (b'.' ∷ rest) count true ≡ version_loop rest ((count + 1) % component_mod) false
unfolding version_loop is_digit
version_loop-dot rest count = refl

version_loop_complete :
    (dots : ℕ) (saw_digit : Bool) (value : Bytes) (count : ℕ)
    → count + dots ≡ 2
    → HasRuns dots saw_digit value
    → version_loop value count saw_digit ≡ true
version_loop_complete zero saw_digit value count e h =
    rw (← append-nil value, version_loop-digits value [] count saw_digit h)
      (unfold version_loop in ground arith)
version_loop_complete (suc dots) saw_digit value count e (digits, rest, split, run, more) =
    let next : (count + 1) % component_mod ≡ count + 1 = omega arith in
    let tail : version_loop rest ((count + 1) % component_mod) false ≡ true =
      version_loop_complete dots false rest ((count + 1) % component_mod) (omega arith) more in
    rw (split, version_loop-digits digits (b'.' ∷ rest) count saw_digit run)
      (version_loop-dot rest count ∙ tail)

-- The test for an empty text is one with the loop's answer.
is_build_version_valid_loop :
    (value : Bytes) → is_build_version_valid value ≡ version_loop value 0 false
unfolding is_build_version_valid version_loop
is_build_version_valid_loop [] = refl
is_build_version_valid_loop (c ∷ value) = refl

-- A build version shorter than 2^32 bytes is valid exactly if it is three runs of digits, none of
-- them empty, with one dot between them.
pub is_build_version_valid_iff :
    (value : Bytes)
    → length value < component_mod
    → (is_build_version_valid value ≡ true) ↔ HasRuns 2 false value
is_build_version_valid_iff value fits = (
  λ h.
      version_loop_sound value 0 2 false refl (omega arith)
        (sym (is_build_version_valid_loop value) ∙ h),
  λ h. is_build_version_valid_loop value ∙ version_loop_complete 2 false value 0 refl h,
)
