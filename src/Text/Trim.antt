-- ===== src/Text/Trim.antt =====
-- `mp_logger_copy_trimmed`: which part of the source the destination holds.
use mp_logger.Common.{
  ℕ, zero, suc, ◌+◌, ◌-◌, ◌≤◌, ◌<◌, ◌≡◌, sym, ap, ◌∙◌, inl, inr, true, false, ◌&&◌, [], ◌∷◌, ◌++◌,
  arith, Bytes, ltb, leb, if◌then◌else◌, Bool-cases, length, get_or, take, drop, All, All-drop,
  All-drop_step, All-take, length-take, length-drop, take-all, take-take_le, take-append-drop,
  get_or-take, get_or-drop, drop-all, drop-drop,
}
use native.Mathlib.Nat.{zero-add}
use mp_logger.Text.{is_space, trim_start, trim_end, copy_trimmed}

abbrev pub IsSpace : ℕ → Type 0
IsSpace c = is_space c ≡ true

-- The first and the last byte of a text that is not empty are no whitespace.
abbrev pub IsBare : Bytes → Type 0
IsBare s =
    0 < length s
    → (is_space (get_or s 0 0) ≡ false) × (is_space (get_or s (length s - 1) 0) ≡ false)

trim_start-All : (src : Bytes) → All IsSpace (take (trim_start src) src)
unfolding trim_start
trim_start-All [] = tt
trim_start-All (c ∷ src) = elim (Bool-cases (is_space c)) [
  | inl h ↦ rw h (h, trim_start-All src)
  | inr h ↦ rw h tt
]

trim_start-le : (src : Bytes) → trim_start src ≤ length src
unfolding trim_start
trim_start-le [] = omega arith
trim_start-le (c ∷ src) = ground (arith, trim_start-le src)

trim_start_stops :
    (src : Bytes) → trim_start src < length src → is_space (get_or src (trim_start src) 0) ≡ false
unfolding trim_start
trim_start_stops [] h = absurd (omega arith)
trim_start_stops (c ∷ src) h = elim (Bool-cases (is_space c)) [
  | inl e ↦ rw e (trim_start_stops src (ground arith))
  | inr e ↦ rw e e
]

module _ (src : Bytes) (start : ℕ) where
  trim_end-le : (end : ℕ) → trim_end src start end ≤ end
  unfolding trim_end
  trim_end-le zero = omega arith
  trim_end-le (suc end) = ground (arith, trim_end-le end)

  le-trim_end : (end : ℕ) → start ≤ end → start ≤ trim_end src start end
  unfolding trim_end
  le-trim_end zero h = omega arith
  le-trim_end (suc end) h = ground (arith, le-trim_end end)

  trim_end-All :
      (end : ℕ) → All IsSpace (drop end src) → All IsSpace (drop (trim_end src start end) src)
  unfolding trim_end
  trim_end-All zero h = h
  trim_end-All (suc end) h =
      elim (Bool-cases (ltb start (suc end) && is_space (get_or src end 0))) [
        | inl e ↦ rw e (trim_end-All end (All-drop_step IsSpace end src 0 (λ l. ground arith) h))
        | inr e ↦ rw e h
      ]

  trim_end_stops :
      (end : ℕ)
      → start < trim_end src start end
      → is_space (get_or src (trim_end src start end - 1) 0) ≡ false
  unfolding trim_end
  trim_end_stops zero h = absurd (omega arith)
  trim_end_stops (suc end) h =
      elim (Bool-cases (ltb start (suc end) && is_space (get_or src end 0))) [
        | inl e ↦ rw e (trim_end_stops end (rw e at h))
        | inr e ↦ rw e (ground arith)
      ]

-- The text between the leading and the trailing whitespace, before it is cut to the capacity.
abbrev pub bare : Bytes → Bytes
bare src =
    take (trim_end src (trim_start src) (length src) - trim_start src) (drop (trim_start src) src)

take-cut :
    (capacity n : ℕ) (s : Bytes)
    → n ≤ length s
    → take (if leb capacity n then capacity - 1 else n) s ≡ take (capacity - 1) (take n s)
take-cut capacity n s h = ground (
  arith,
  take-take_le (capacity - 1) n s,
  take-all n s,
  take-all (capacity - 1) (take n s),
  length-take n s,
)

bare_length :
    (src : Bytes)
    → trim_end src (trim_start src) (length src) - trim_start src
      ≤ length (drop (trim_start src) src)
bare_length src =
    omega (arith, length-drop (trim_start src) src, trim_end-le src (trim_start src) (length src))

pub copy_trimmed-bare :
    (capacity : ℕ) (src : Bytes) → copy_trimmed capacity src ≡ take (capacity - 1) (bare src)
unfolding copy_trimmed
copy_trimmed-bare capacity src =
    take-cut capacity (trim_end src (trim_start src) (length src) - trim_start src)
      (drop (trim_start src) src) (omega (arith, bare_length src))

length-bare :
    (src : Bytes) → length (bare src) ≡ trim_end src (trim_start src) (length src) - trim_start src
length-bare src = omega (
  arith,
  bare_length src,
  length-take (trim_end src (trim_start src) (length src) - trim_start src)
      (drop (trim_start src) src),
)

get_or-bare :
    (src : Bytes) (i : ℕ)
    → i < length (bare src)
    → get_or (bare src) i 0 ≡ get_or src (i + trim_start src) 0
get_or-bare src i h =
    get_or-take _ i (drop (trim_start src) src) 0 (omega (arith, length-bare src))
    ∙ get_or-drop (trim_start src) i src 0

pub bare-IsBare : (src : Bytes) → IsBare (bare src)
bare-IsBare src h =
    let start = trim_start src in
    let end = trim_end src start (length src) in
    let bounds : end ≤ length src = trim_end-le src start (length src) in
    let size : length (bare src) ≡ end - start = length-bare src in
    let last : length (bare src) - 1 + start ≡ end - 1 = omega arith in
    (
      rw (get_or-bare src 0 h, zero-add) (trim_start_stops src (omega arith)),
      rw (get_or-bare src (length (bare src) - 1) (omega arith), last)
          (trim_end_stops src start (length src) (omega arith)),
    )

-- What `mp_logger_copy_trimmed` leaves in an array of `capacity` bytes: the source is whitespace, a
-- part that neither begins nor ends with whitespace, and whitespace again; the array holds the first
-- `capacity - 1` bytes of that part, all of it if it is shorter than the array.
pub record IsTrimmed (capacity : ℕ) (src out : Bytes) : Type 0 where
  pub before : Bytes
  pub kept : Bytes
  pub after : Bytes
  pub splits : src ≡ before ++ (kept ++ after)
  pub before_space : All IsSpace before
  pub after_space : All IsSpace after
  pub bare_kept : IsBare kept
  pub cut : out ≡ take (capacity - 1) kept

after_start :
    (src : Bytes)
    → trim_start src + (trim_end src (trim_start src) (length src) - trim_start src)
      ≡ trim_end src (trim_start src) (length src)
after_start src = omega (arith, le-trim_end src (trim_start src) (length src) (trim_start-le src))

-- For every source and every capacity, the source is whitespace, a part that neither begins nor ends
-- with whitespace, and whitespace again, and the array holds the first `capacity - 1` bytes of that
-- part.
pub copy_trimmed-IsTrimmed :
    (capacity : ℕ) (src : Bytes) → IsTrimmed capacity src (copy_trimmed capacity src)
copy_trimmed-IsTrimmed capacity src =
    let start = trim_start src in
    let end = trim_end src start (length src) in
    record {
      before = take start src;
      kept = bare src;
      after = drop (end - start) (drop start src);
      splits =
          sym (take-append-drop start src)
          ∙ ap (λ s. take start src ++ s) (sym (take-append-drop (end - start) (drop start src)));
      before_space = trim_start-All src;
      after_space =
          rw (drop-drop, after_start src)
            (trim_end-All src start (length src) (rw (drop-all (length src) src (omega arith)) tt));
      bare_kept = bare-IsBare src;
      cut = copy_trimmed-bare capacity src;
    }

-- The result is shorter than the array.
pub length-copy_trimmed :
    (capacity : ℕ) (src : Bytes) → 0 < capacity → length (copy_trimmed capacity src) < capacity
length-copy_trimmed capacity src h =
    rw copy_trimmed-bare (omega (arith, length-take (capacity - 1) (bare src)))

-- A predicate on the bytes of the source holds of the bytes copied.
pub All-copy_trimmed :
    (P : ℕ → Type 0) (capacity : ℕ) (src : Bytes) → All P src → All P (copy_trimmed capacity src)
All-copy_trimmed P capacity src h = rw copy_trimmed-bare (
    All-take P _ (bare src)
      (All-take P _ (drop (trim_start src) src) (All-drop P (trim_start src) src h)))
