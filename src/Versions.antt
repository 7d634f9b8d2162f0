-- ===== src/Versions.antt =====
-- src/core/shared/domain/semver.ts, the versions that an update compares. `localeCompare` is a
-- parameter. A comparison has a sign only, and a number has so few digits that it is exact.
pub mod Prerelease
mod Tests
use surfwright.Base.{
  ℕ, zero, suc, ◌+◌, ◌*◌, ◌-◌, Bool, true, false, not, ◌&&◌, ◌||◌, Option, none, some, List, [],
  ◌∷◌, ◌++◌, if◌then◌else◌, ltb, leb, ◌==◌, all, drop, Text, text_eq, starts_with, is_space, trim,
  trim_start, is_blank, lit,
}

-- The sign of the number that a comparison gives.
pub data Sign : Type 0 where
  below same above : Sign

pub record Semver : Type 0 where
  pub major : ℕ
  pub minor : ℕ
  pub patch : ℕ
  pub prerelease : Option Text

-- `text.split(c)` for a text of one character.
abbrev pub cons_part : ℕ → List Text → List Text
cons_part c [] = (c ∷ []) ∷ []
cons_part c (part ∷ parts) = (c ∷ part) ∷ parts

unfoldable pub split_on : ℕ → Text → List Text
split_on at [] = [] ∷ []
split_on at (c ∷ t) = let rest = split_on at t in if c == at then [] ∷ rest else cons_part c rest

abbrev pub is_digit : ℕ → Bool
is_digit c = leb 48 c && leb c 57

-- The digits at the head of a text, behind those read so far.
unfoldable pub digits_value : Option ℕ → Text → Option ℕ
digits_value so_far [] = so_far
digits_value so_far (c ∷ t) =
    let next = digits_value (some (elim so_far [ none ↦ c - 48 | some n ↦ n * 10 + (c - 48) ])) t in
    if is_digit c then next else so_far

abbrev without_plus : Text → Text
without_plus [] = []
without_plus (c ∷ t) = if c == 43 then t else c ∷ t

-- `Number.parseInt(text, 10)` of a text without a minus; `none` is NaN.
unfoldable pub parse_int : Text → Option ℕ
parse_int t = digits_value none (without_plus (trim_start t))

abbrev core_of : Option ℕ → Option ℕ → Option ℕ → Option (ℕ × (ℕ × ℕ))
core_of (some major) (some minor) (some patch) = some (major, (minor, patch))
core_of _ _ _ = none

abbrev core_parts : List Text → Option (ℕ × (ℕ × ℕ))
core_parts (major ∷ minor ∷ patch ∷ rest) =
    core_of (parse_int major) (parse_int minor) (parse_int patch)
core_parts _ = none

unfoldable pub parse_core : Text → Option (ℕ × (ℕ × ℕ))
parse_core input = core_parts (split_on 46 input)

abbrev pub prerelease_of : List Text → Option Text
prerelease_of [] = none
prerelease_of (raw ∷ rest) = if is_blank raw then none else some raw

-- By what stands between dashes.
abbrev pub semver_parts : List Text → Option Semver
semver_parts [] = none
semver_parts (base ∷ rest) = if is_blank base then none else elim (parse_core base) [
  | none ↦ none
  | some (major, (minor, patch)) ↦
      some record { major = major; minor = minor; patch = patch; prerelease = prerelease_of rest }
]

unfoldable pub parse_semver : Text → Option Semver
parse_semver input =
    let trimmed = trim input in
    if is_blank trimmed then none else semver_parts (split_on 45 trimmed)

-- The sign of a difference, then what follows for two alike.
abbrev compare_numbers : ℕ → ℕ → Sign → Sign
compare_numbers a b otherwise = if ltb a b then below else if ltb b a then above else otherwise

module _ (locale_compare : Text → Text → Sign) where
  abbrev pub compare_prerelease : Option Text → Option Text → Sign
  compare_prerelease none none = same
  compare_prerelease none (some b) = above
  compare_prerelease (some a) none = below
  compare_prerelease (some a) (some b) = if text_eq a b then same else locale_compare a b

  unfoldable pub compare_parsed : Text → Text → Option Semver → Option Semver → Sign
  compare_parsed a b (some pa) (some pb) = compare_numbers pa.major pb.major (
      compare_numbers pa.minor pb.minor
        (compare_numbers pa.patch pb.patch (compare_prerelease pa.prerelease pb.prerelease)))
  compare_parsed a b _ _ = locale_compare a b

  unfoldable pub compare_semver : Text → Text → Sign
  compare_semver a b = compare_parsed a b (parse_semver a) (parse_semver b)

unfoldable pub is_same_patch_line : Text → Text → Bool
is_same_patch_line a b = elim (parse_semver a) [
  | none ↦ false
  | some pa ↦ elim (parse_semver b) [
    | none ↦ false
    | some pb ↦ (pa.major == pb.major) && (pa.minor == pb.minor)
  ]
]

-- Behind some digits, whether what follows is a dot and the rest fits; `left` dots are to come.
abbrev is_version_char : ℕ → Bool
is_version_char c =
    is_digit c || (leb b'A' c && leb c b'Z') || (leb b'a' c && leb c b'z') || (c == 46) || (c == 45)

abbrev is_version_end : Text → Bool
is_version_end [] = true
is_version_end (c ∷ t) = (c == 45) && not (is_blank t) && all is_version_char t

-- `^\d+\.\d+\.\d+(-[0-9A-Za-z.-]+)?$`, from a number on: the dots to come, and whether a digit is read.
unfoldable pub is_exact_from : ℕ → Bool → Text → Bool
is_exact_from zero has_digit [] = has_digit
is_exact_from (suc dots) has_digit [] = false
is_exact_from zero has_digit (c ∷ t) =
    let rest = is_exact_from zero true t in
    if is_digit c then rest else has_digit && is_version_end (c ∷ t)
is_exact_from (suc dots) has_digit (c ∷ t) =
    let next_number = is_exact_from dots false t in
    let rest = is_exact_from (suc dots) true t in
    if is_digit c then rest else has_digit && (c == 46) && next_number

-- `split(/\s+/).filter(Boolean)`, with the word that is read.
abbrev word_before : Text → List Text → List Text
word_before [] words = words
word_before (c ∷ t) words = (c ∷ t) ∷ words

unfoldable pub words_from : Text → Text → List Text
words_from word [] = word_before word []
words_from word (c ∷ t) =
    let behind = words_from [] t in
    let longer = words_from (word ++ (c ∷ [])) t in
    if is_space c then word_before word behind else longer

abbrev is_below : Sign → Bool
is_below below = true
is_below _ = false

abbrev is_above : Sign → Bool
is_above above = true
is_above _ = false

abbrev is_same : Sign → Bool
is_same same = true
is_same _ = false

abbrev same_major : Option Semver → Option Semver → Bool
same_major (some min) (some cur) = cur.major == min.major
same_major _ _ = false

module _ (locale_compare : Text → Text → Sign) where
  -- One part of a range, by its operator.
  unfoldable pub satisfies_part : Text → Text → Bool
  satisfies_part version part =
      let than = λ (n : ℕ). compare_semver locale_compare version (drop n part) in
      if starts_with (lit ">=") part
      then not (is_below (than 2))
      else if starts_with (lit "<=") part
      then not (is_above (than 2))
      else if starts_with (lit ">") part
      then is_above (than 1)
      else if starts_with (lit "<") part
      then is_below (than 1)
      else if starts_with (lit "^") part
      then same_major (parse_semver (drop 1 part)) (parse_semver version) && not (is_below (than 1))
      else false

  unfoldable pub satisfies_range : Text → Text → Bool
  satisfies_range version range =
      let normalized = trim range in
      if is_blank normalized
      then false
      else if is_exact_from 2 false normalized
      then is_same (compare_semver locale_compare version normalized)
      else all (satisfies_part version) (words_from [] normalized)
