-- ===== src/Render/Output.antt =====
-- What each append of the renderer does to the buffer: it holds the first bytes of the text that the
-- calls so far have produced, as many as fit in front of the NUL.
use native.Mathlib.Decide.{dec_lt}
use mathlib.Core.Path.{subst}
use mp_logger.Common.{
  ℕ, ◌+◌, ◌<◌, ◌≡◌, [], ◌∷◌, ◌++◌, append-nil, append_assoc, arith, Bytes, size_mod, length,
  length-append, length-set, get_or, get_or-append, get_or-append_last, get_or-set_self,
  get_or-set_ne,
}
use mp_logger.Render.{Out, ◌▸◌, append_char, append_string}

module _ (capacity : ℕ) where
  pub record Holds (o : Out) (text : Bytes) : Type 0 where
    pub size : length o.buffer ≡ capacity
    pub logical : o.used ≡ length text
    pub stored :
        (i : ℕ) → i + 1 < capacity → i < length text → get_or o.buffer i 0 ≡ get_or text i 0

  -- `f` appends `t`, as long as the logical length fits `size_t`.
  abbrev pub Appends : (Out → Out) → Bytes → Type 0
  Appends f t =
      (o : Out) (text : Bytes)
      → Holds o text
      → length text + length t < size_mod
      → Holds (f o) (text ++ t)

  append_char-stored :
      (value : ℕ) (o : Out) (text : Bytes)
      → Holds o text
      → length text + 1 < size_mod
      → (i : ℕ) → i + 1 < capacity
      → i < length text + 1
      → get_or (append_char capacity value o).buffer i 0 ≡ get_or (text ++ (value ∷ [])) i 0
  unfolding append_char
  append_char-stored value o text h fits i inside below = elim (dec_lt i (length text)) [
    | yes old ↦ ground (
      arith,
      h.stored i inside old,
      get_or-append text (value ∷ []) i 0 old,
      get_or-set_ne o.buffer o.used i value 0,
    )
    | no new ↦
        ground (arith, get_or-append_last text value 0 i, get_or-set_self o.buffer o.used value 0)
  ]

  pub append_char-Appends : (value : ℕ) → Appends (append_char capacity value) (value ∷ [])
  append_char-Appends value o text h fits = record {
    size = unfold append_char in ground (arith, h.size, length-set o.buffer o.used value);
    logical = unfold append_char in omega (arith, h.logical, length-append text (value ∷ []));
    stored = λ i inside below.
        append_char-stored value o text h fits i inside
          (omega (arith, length-append text (value ∷ [])));
  }

  pub append_string-Appends : (s : Bytes) → Appends (append_string capacity s) s
  unfolding append_string
  append_string-Appends [] o text h fits = rw append-nil h
  append_string-Appends (c ∷ s) o text h fits =
      subst (Holds (append_string capacity s (append_char capacity c o)))
        (append_assoc text (c ∷ []) s)
        (append_string-Appends s (append_char capacity c o) (text ++ (c ∷ []))
          (append_char-Appends c o text h (omega arith))
          (omega (arith, length-append text (c ∷ []))))

module _ {capacity : ℕ} where
  -- One append after the other.
  infixl 20 ◌▹◌
  pub ◌▹◌ :
      {f g : Out → Out} {t u : Bytes}
      → Appends capacity f t
      → Appends capacity g u
      → Appends capacity (f ▸ g) (t ++ u)
  unfolding ◌▸◌
  ◌▹◌ {f} {g} {t} {u} p q o text h fits = subst (Holds capacity (g (f o))) (append_assoc text t u) (
      q (f o) (text ++ t) (p o text h (omega (arith, length-append t u)))
        (omega (arith, length-append t u, length-append text t)))
