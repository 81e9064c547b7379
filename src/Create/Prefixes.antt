-- ===== src/Create/Prefixes.antt =====
-- The prefixes of file names in the configuration of a new logger: `mp_logger_normalize_config` of
-- src/mp_logger.c.
use mp_logger.Common.{
  ℕ, ◌≤◌, ◌≡◌, ◌⊎◌, ◌↔◌, refl, sym, ◌∙◌, inl, inr, true, [], ◌∷◌, arith, Bytes, Bool-cases,
}
use mp_logger.Text.{is_alnum, is_digit, is_safe_byte, sanitize_file_component}
use mp_logger.Config.{Config}
use mp_logger.Streams.{normalize_config}

-- A letter, a digit, `-` or `_`, in ASCII.
abbrev pub IsFileByte : ℕ → Type 0
IsFileByte c =
    ((48 ≤ c) × (c ≤ 57)) ⊎ ((97 ≤ c) × (c ≤ 122)) ⊎ ((65 ≤ c) × (c ≤ 90)) ⊎ (c ≡ 45) ⊎ (c ≡ 95)

-- A prefix for the name of a file: as long as the one asked for, with the same bytes where those are
-- safe, and a `_` for each other one.
abbrev pub IsSafePrefix : Bytes → Bytes → Type 0
IsSafePrefix [] [] = Unit
IsSafePrefix (c ∷ asked) (d ∷ given) =
    IsFileByte d × (IsFileByte c → d ≡ c) × ((IsFileByte c → ⊥) → d ≡ 95) × IsSafePrefix asked given
IsSafePrefix _ _ = ⊥

-- The configuration that was asked for, with safe prefixes.
pub record HasSafePrefixes (c given : Config) : Type 0 where
  pub file_name : IsSafePrefix c.file_name_prefix given.file_name_prefix
  pub backup_file_name : IsSafePrefix c.backup_file_name_prefix given.backup_file_name_prefix
  pub others : given ≡ record c {
    file_name_prefix = given.file_name_prefix;
    backup_file_name_prefix = given.backup_file_name_prefix;
  }

is_safe_byte_iff : (c : ℕ) → (is_safe_byte c ≡ true) ↔ IsFileByte c
unfolding is_alnum is_digit
is_safe_byte_iff c = ground arith

underscore-IsFileByte : IsFileByte 95
underscore-IsFileByte = ground arith

sanitize_file_component-IsSafePrefix : (s : Bytes) → IsSafePrefix s (sanitize_file_component s)
unfolding sanitize_file_component
sanitize_file_component-IsSafePrefix [] = tt
sanitize_file_component-IsSafePrefix (c ∷ s) = elim (Bool-cases (is_safe_byte c)) [
  | inl e ↦
      let safe = (is_safe_byte_iff c).0 e in
      rw e (safe, (λ h. refl), (λ h. absurd (h safe)), sanitize_file_component-IsSafePrefix s)
  | inr e ↦ rw e (
    underscore-IsFileByte,
    (λ h. absurd (cc (sym e ∙ (is_safe_byte_iff c).1 h))),
    (λ h. refl),
    sanitize_file_component-IsSafePrefix s,
  )
]

pub normalize_config-HasSafePrefixes : (c : Config) → HasSafePrefixes c (normalize_config c)
unfolding normalize_config
normalize_config-HasSafePrefixes c = record {
  file_name = sanitize_file_component-IsSafePrefix c.file_name_prefix;
  backup_file_name = sanitize_file_component-IsSafePrefix c.backup_file_name_prefix;
  others = refl;
}
