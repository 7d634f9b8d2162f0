-- ===== src/Versions/Tests.antt =====
-- src/core/shared/domain/semver.ts: tests, and its theorem at concrete versions.
use surfwright.Base.{true, false, ◌≡◌, refl, some, Text, lit, starts_with, trim, trim_start}
use surfwright.Versions.{
  Sign, below, same, above, split_on, parse_int, digits_value, parse_core, parse_semver,
  compare_parsed, compare_semver, is_same_patch_line, is_exact_from, words_from, satisfies_part,
  satisfies_range,
}
use surfwright.Versions.Prerelease.{compare_semver-second_dash}

abbrev locale : Text → Text → Sign
locale a b = below

release_is_above : compare_semver locale (lit "1.10.0") (lit "1.9.3-rc") ≡ above
unfolding compare_semver compare_parsed parse_semver parse_core parse_int digits_value split_on trim
    trim_start
release_is_above = refl

prerelease_is_below : compare_semver locale (lit "2.0.0-rc") (lit " 2.0.0") ≡ below
unfolding compare_semver compare_parsed parse_semver parse_core parse_int digits_value split_on trim
    trim_start
prerelease_is_below = refl

fits_a_range : satisfies_range locale (lit "1.4.2") (lit ">=1.2.0  <2.0.0") ≡ true
unfolding satisfies_range is_exact_from words_from satisfies_part starts_with compare_semver
    compare_parsed parse_semver parse_core parse_int digits_value split_on trim trim_start
fits_a_range = refl

fits_a_caret : satisfies_range locale (lit "2.0.0") (lit "^1.2.0") ≡ false
unfolding satisfies_range is_exact_from words_from satisfies_part starts_with compare_semver
    compare_parsed parse_semver parse_core parse_int digits_value split_on trim trim_start
fits_a_caret = refl

is_exact : is_exact_from 2 false (lit "1.20.3-beta.1") ≡ true
unfolding is_exact_from
is_exact = refl

another_line : is_same_patch_line (lit "1.2.3") (lit "1.3.3") ≡ false
unfolding is_same_patch_line parse_semver parse_core parse_int digits_value split_on trim trim_start
another_line = refl

compare_semver-second_dash_example :
    compare_semver locale (lit "1.0.0-beta-1") (lit "1.0.0-beta-2") ≡ same
unfolding parse_core parse_int digits_value split_on trim trim_start
compare_semver-second_dash_example =
    compare_semver-second_dash locale (lit "1.0.0") (lit "beta") (lit "1") (lit "2")
      record { major = 1; minor = 0; patch = 0; prerelease = some (lit "beta") } refl refl refl refl
      refl
