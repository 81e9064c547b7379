-- ===== src/Queue/Ring.antt =====
-- The occupied slots of the ring, oldest first.
use native.Mathlib.Nat.{mod-add-mod, mod-eq_of_lt, mod-eq-sub-mod, add-zero, suc-add}
use native.Mathlib.Decide.{dec_lt}
use mp_logger.Common.{
  ℕ, zero, suc, ◌+◌, ◌-◌, ◌%◌, ◌≤◌, ◌<◌, ◌≡◌, ◌≢◌, refl, ap, ◌∙◌, List, [], ◌∷◌, ◌++◌, arith,
  length, get_or, set, get_or-set_ne,
}
use mp_logger.Logger.{Slot}
use mp_logger.Queue.{blank_slot}

-- The `count` slots from index `head` on, round the end of the array.
abbrev pub occupied : List Slot → ℕ → ℕ → ℕ → List Slot
occupied slots capacity head zero = []
occupied slots capacity head (suc count) =
    get_or slots head blank_slot ∷ occupied slots capacity ((head + 1) % capacity) count

pub length-occupied :
    (slots : List Slot) (capacity head count : ℕ)
    → length (occupied slots capacity head count) ≡ count
length-occupied slots capacity head zero = refl
length-occupied slots capacity head (suc count) =
    ap suc (length-occupied slots capacity ((head + 1) % capacity) count)

-- The remainder of a number that is past the capacity, and not twice.
wrap_once : (n capacity : ℕ) → capacity ≤ n → n < capacity + capacity → n % capacity ≡ n - capacity
wrap_once n capacity h k =
    mod-eq-sub-mod {n = n} {m = capacity} h
    ∙ mod-eq_of_lt {n = n - capacity} {m = capacity} (omega arith)

-- An index some steps further round the ring, fewer than the capacity, is another index.
further-ne :
    (capacity head k : ℕ) → head < capacity → suc k < capacity → (head + suc k) % capacity ≢ head
further-ne capacity head k hh hk = elim (dec_lt (head + suc k) capacity) [
  | yes p ↦ omega (arith, mod-eq_of_lt p)
  | no p ↦ omega (arith, wrap_once (head + suc k) capacity (omega arith) (omega arith))
]

-- To start one slot further on is to go one step less.
advance : (capacity head n : ℕ) → ((head + 1) % capacity + n) % capacity ≡ (head + suc n) % capacity
advance capacity head n = rw mod-add-mod (ap (λ k. k % capacity) (omega arith))

-- A write behind the occupied slots leaves them as they were.
pub occupied-set :
    (slots : List Slot) (capacity head count i k : ℕ) (v : Slot)
    → head < capacity
    → count + k < capacity
    → i ≡ (head + (count + k)) % capacity
    → occupied (set slots i v) capacity head count ≡ occupied slots capacity head count
occupied-set slots capacity head zero i k v hh hc e = refl
occupied-set slots capacity head (suc count) i k v hh hc e = λ j.
    get_or-set_ne slots i head v blank_slot
      (rw (e, suc-add) (further-ne capacity head (count + k) hh (omega arith))) j
    ∷ occupied-set slots capacity ((head + 1) % capacity) count i k v (omega arith) (omega arith)
        (e ∙ rw (suc-add, ← advance)) j

-- One more slot at the end.
pub occupied_snoc :
    (slots : List Slot) (capacity head count : ℕ)
    → head < capacity
    → occupied slots capacity head (suc count)
      ≡ occupied slots capacity head count
        ++ (get_or slots ((head + count) % capacity) blank_slot ∷ [])
occupied_snoc slots capacity head zero hh = rw (add-zero, mod-eq_of_lt hh)
occupied_snoc slots capacity head (suc count) hh =
    ap (λ rest. get_or slots head blank_slot ∷ rest)
      (occupied_snoc slots capacity ((head + 1) % capacity) count (omega arith) ∙ rw advance)
