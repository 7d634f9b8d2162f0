-- ===== src/Versions/Prerelease.antt =====
-- src/core/shared/domain/semver.ts: what stands behind the second dash of a version.
use surfwright.Base.{
  ℕ, false, ◌≡◌, refl, ap, ◌∙◌, Option, none, some, List, [], ◌∷◌, ◌++◌, arith, if◌then◌else◌, ltb,
  ◌==◌, Text, text_eq_refl, trim, is_blank, Bool-cases, inl, inr,
}
use surfwright.Versions.{
  Sign, below, same, above, Semver, split_on, semver_parts, parse_semver, compare_semver,
  compare_parsed, compare_prerelease,
}

module _ (at : ℕ) where
  split_on-cons : (s : Text) → (part : Text) × (parts : List Text) × (split_on at s ≡ part ∷ parts)
  unfolding split_on
  split_on-cons [] = ([], [], refl)
  split_on-cons (c ∷ s) = elim (Bool-cases (c == at)) [
    | inl q ↦ ([], split_on at s, rw q refl)
    | inr q ↦ (let (part, parts, e) = split_on-cons s in (c ∷ part, parts, rw q (rw e refl)))
  ]

  split_on-append : (s t : Text) → split_on at (s ++ (at ∷ t)) ≡ split_on at s ++ split_on at t
  unfolding split_on
  split_on-append [] t = elim (Bool-cases (at == at)) [
    | inl q ↦ rw q refl
    | inr q ↦ absurd (let no : ⊥ = ground arith in no)
  ]
  split_on-append (c ∷ s) t =
      let ih = split_on-append s t in
      elim (Bool-cases (c == at)) [
        | inl q ↦ rw q (ap (λ parts. [] ∷ parts) ih)
        | inr q ↦ (let (part, parts, e) = split_on-cons s in rw q (rw ih (rw e refl)))
      ]

semver_parts-third :
    (base pre : Text) (more : List Text)
    → semver_parts (base ∷ pre ∷ more) ≡ semver_parts (base ∷ pre ∷ [])
semver_parts-third base pre more = refl

is_blank-append : (s t : Text) (c : ℕ) → is_blank (s ++ (c ∷ t)) ≡ false
is_blank-append [] t c = refl
is_blank-append (d ∷ s) t c = refl

-- A base, a prerelease and a rest, with dashes between.
abbrev pub with_rest : Text → Text → Text → Text
with_rest base pre rest = (base ++ (45 ∷ pre)) ++ (45 ∷ rest)

module _ (base pre : Text) (v : Semver) where
  parse_semver-with_rest :
      (rest : Text)
      → split_on 45 base ≡ base ∷ []
      → split_on 45 pre ≡ pre ∷ []
      → semver_parts (base ∷ pre ∷ []) ≡ some v
      → trim (with_rest base pre rest) ≡ with_rest base pre rest
      → parse_semver (with_rest base pre rest) ≡ some v
  unfolding parse_semver
  parse_semver-with_rest rest one two parsed trimmed =
      let filled = is_blank-append (base ++ (45 ∷ pre)) rest 45 in
      let two_parts : split_on 45 (base ++ (45 ∷ pre)) ≡ base ∷ pre ∷ [] =
        split_on-append 45 base pre ∙ rw (one, two) refl in
      let parts : split_on 45 (with_rest base pre rest) ≡ base ∷ pre ∷ split_on 45 rest =
        split_on-append 45 (base ++ (45 ∷ pre)) rest
        ∙ ap (λ ps. ps ++ split_on 45 rest) two_parts in
      rw (trimmed, filled, parts) parsed

compare_numbers_same :
    (a : ℕ) (otherwise : Sign)
    → (if ltb a a then below else if ltb a a then above else otherwise) ≡ otherwise
compare_numbers_same a otherwise = elim (Bool-cases (ltb a a)) [
  | inl q ↦ absurd (let no : ⊥ = ground arith in no)
  | inr q ↦ rw q refl
]

compare_prerelease-same :
    (locale : Text → Text → Sign) (p : Option Text) → compare_prerelease locale p p ≡ same
compare_prerelease-same locale none = refl
compare_prerelease-same locale (some t) = rw (text_eq_refl t) refl

compare_parsed-same :
    (locale : Text → Text → Sign) (a b : Text) (v : Semver)
    → compare_parsed locale a b (some v) (some v) ≡ same
unfolding compare_parsed
compare_parsed-same locale a b v =
    rw (compare_numbers_same v.major, compare_numbers_same v.minor, compare_numbers_same v.patch)
      (compare_prerelease-same locale v.prerelease)

-- Two versions without white space around, of one base and one prerelease, without dashes, that parse:
-- they compare as the same, whatever each has behind a second dash and whatever localeCompare says.
pub compare_semver-second_dash :
    (locale : Text → Text → Sign) (base pre s t : Text) (v : Semver)
    → split_on 45 base ≡ base ∷ []
    → split_on 45 pre ≡ pre ∷ []
    → semver_parts (base ∷ pre ∷ []) ≡ some v
    → trim (with_rest base pre s) ≡ with_rest base pre s
    → trim (with_rest base pre t) ≡ with_rest base pre t
    → compare_semver locale (with_rest base pre s) (with_rest base pre t) ≡ same
unfolding compare_semver
compare_semver-second_dash locale base pre s t v one two parsed trim_s trim_t =
    let a = with_rest base pre s in
    let b = with_rest base pre t in
    rw
      (
        parse_semver-with_rest base pre v s one two parsed trim_s,
        parse_semver-with_rest base pre v t one two parsed trim_t,
      )
      (compare_parsed-same locale a b v)
