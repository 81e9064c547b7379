-- ===== src/Tests/Text.antt =====
-- Texts.
use mp_logger.Common.{false, ◌≡◌, ◌↔◌, refl, map, some, codes, arith, true}
use mp_logger.Text.{
  is_space, is_digit, to_lower, equal_ignore_case, trim_start, trim_end, copy_trimmed,
  copy_truncated, version_loop, is_build_version_valid,
}
use mp_logger.Text.Trim.{IsTrimmed, copy_trimmed-IsTrimmed}
use mp_logger.Text.Truncate.{copy_truncated_lem}
use mp_logger.Text.Version.{HasRuns, is_build_version_valid_iff}
use mp_logger.Text.Case.{equal_ignore_case_iff}

trimmed_and_cut : copy_trimmed 4 (codes "  ab cd ") ≡ codes "ab "
unfolding copy_trimmed trim_start trim_end is_space
trimmed_and_cut = refl

copy_trimmed-IsTrimmed_example : IsTrimmed 4 (codes "  ab cd ") (copy_trimmed 4 (codes "  ab cd "))
copy_trimmed-IsTrimmed_example = copy_trimmed-IsTrimmed 4 (codes "  ab cd ")

copy_truncated_lem_example : copy_truncated 4 (some (codes "hello")) ≡ (codes "hel", 3)
copy_truncated_lem_example = copy_truncated_lem 4 (codes "hello") (omega arith)

equal_ignore_case_iff_example :
    (equal_ignore_case (codes "YES") (codes "yes") ≡ true)
    ↔ (map to_lower (codes "YES") ≡ map to_lower (codes "yes"))
equal_ignore_case_iff_example = equal_ignore_case_iff (codes "YES") (codes "yes")

three_components : is_build_version_valid (codes "1.20.3") ≡ true
unfolding is_build_version_valid version_loop is_digit
three_components = refl

is_build_version_valid_iff_example :
    (is_build_version_valid (codes "1.20.3") ≡ true) ↔ HasRuns 2 false (codes "1.20.3")
is_build_version_valid_iff_example = is_build_version_valid_iff (codes "1.20.3") (omega arith)

leading_dot : is_build_version_valid (codes ".1.2") ≡ false
unfolding is_build_version_valid version_loop is_digit
leading_dot = refl
