-- ===== src/State/NetworkArtifacts/Selection.antt =====
-- src/core/state/repo/network-artifact-repo.ts: what is left of the entries.
use surfwright.Base.{
  ℕ, suc, ◌+◌, ◌≤◌, String, Bool, true, false, not, ◌≡◌, refl, subst, ap, ◌∙◌, Option, none, some,
  List, [], ◌∷◌, arith, ltb, length, length-keep-le, keep, drop, Text, Bool-cases, inl, inr, All,
}
use surfwright.State.NetworkArtifacts.{
  Artifact, PruneLimits, Removal, no_removal, has_id, set_add, is_kept, left_by, for_each,
  visit_missing, visit_aged, visit_counted, add_by_age, is_too_old, is_missing, add_beyond,
  add_oversized, add_by_size, select,
}
use surfwright.State.NetworkArtifacts.Marks.{
  Within, has_id-set_add, has_id-set_add_self, keep-left, Marked-kept, for_each-Within,
  for_each-Marked, AtMost, total_bytes, length-keep-drop, length-impossible,
}

module _ (parse_date : Text → Option ℕ) (now : ℕ) (missing_paths : List String) where
  visit_missing-Within :
      (a : Artifact) (r : Removal)
      → Within r.remove_ids (visit_missing parse_date now missing_paths a r).remove_ids
  unfolding visit_missing
  visit_missing-Within a r id h = elim (Bool-cases (has_id a.path missing_paths)) [
    | inl q ↦ rw q (has_id-set_add a.artifact_id id r.remove_ids h)
    | inr q ↦ rw q h
  ]

  visit_missing-marks :
      (a : Artifact) (r : Removal)
      → has_id a.path missing_paths ≡ true
      → has_id a.artifact_id (visit_missing parse_date now missing_paths a r).remove_ids ≡ true
  unfolding visit_missing
  visit_missing-marks a r h = rw h (has_id-set_add_self a.artifact_id r.remove_ids)

  visit_aged-Within :
      (hours : ℕ) (a : Artifact) (r : Removal)
      → Within r.remove_ids (visit_aged parse_date now missing_paths hours a r).remove_ids
  unfolding visit_aged
  visit_aged-Within hours a r id h =
      elim (Bool-cases (is_too_old parse_date now missing_paths hours a)) [
        | inl q ↦ rw q (has_id-set_add a.artifact_id id r.remove_ids h)
        | inr q ↦ rw q h
      ]

  visit_aged-marks :
      (hours : ℕ) (a : Artifact) (r : Removal)
      → is_too_old parse_date now missing_paths hours a ≡ true
      → has_id a.artifact_id (visit_aged parse_date now missing_paths hours a r).remove_ids ≡ true
  unfolding visit_aged
  visit_aged-marks hours a r h = rw h (has_id-set_add_self a.artifact_id r.remove_ids)

  visit_counted-Within :
      (a : Artifact) (r : Removal)
      → Within r.remove_ids (visit_counted parse_date now missing_paths a r).remove_ids
  unfolding visit_counted
  visit_counted-Within a r id h = has_id-set_add a.artifact_id id r.remove_ids h

  visit_counted-marks :
      (a : Artifact) (r : Removal)
      → true ≡ true
      → has_id a.artifact_id (visit_counted parse_date now missing_paths a r).remove_ids ≡ true
  unfolding visit_counted
  visit_counted-marks a r h = has_id-set_add_self a.artifact_id r.remove_ids

  add_oversized-Within :
      (most running : ℕ) (entries : List Artifact) (r : Removal)
      → Within r.remove_ids
          (add_oversized parse_date now missing_paths most running entries r).remove_ids
  unfolding add_oversized
  add_oversized-Within most running [] r id h = h
  add_oversized-Within most running (a ∷ rest) r id h =
      let next : Removal = record r {
        remove_ids = set_add a.artifact_id r.remove_ids;
        by_size = suc r.by_size;
      } in
      elim (Bool-cases (ltb most (running + a.bytes))) [
        | inl q ↦ rw q (
            add_oversized-Within most running rest next id
              (has_id-set_add a.artifact_id id r.remove_ids h))
        | inr q ↦ rw q (add_oversized-Within most (running + a.bytes) rest r id h)
      ]

  total_bytes-add_oversized :
      (most running : ℕ) (entries : List Artifact) (r : Removal) (more : List String)
      → running ≤ most
      → Within (add_oversized parse_date now missing_paths most running entries r).remove_ids more
      → running + total_bytes (keep (is_kept more) entries) ≤ most
  unfolding add_oversized
  total_bytes-add_oversized most running [] r more fits w = omega (arith, fits)
  total_bytes-add_oversized most running (a ∷ rest) r more fits w =
      let whole = add_oversized parse_date now missing_paths most running (a ∷ rest) r in
      let next : Removal = record r {
        remove_ids = set_add a.artifact_id r.remove_ids;
        by_size = suc r.by_size;
      } in
      elim (Bool-cases (ltb most (running + a.bytes))) [
        | inl q ↦
            (let step : whole ≡ add_oversized parse_date now missing_paths most running rest next =
                rw q refl in
              let behind = subst (λ (x : Removal). Within x.remove_ids more) step w in
              let gone : is_kept more a ≡ false = ap not (
                behind a.artifact_id (
                  add_oversized-Within most running rest next a.artifact_id
                    (has_id-set_add_self a.artifact_id r.remove_ids))) in
              rw gone (total_bytes-add_oversized most running rest next more fits behind))
        | inr q ↦
            (let step : whole
                  ≡ add_oversized parse_date now missing_paths most (running + a.bytes) rest r =
                rw q refl in
              let behind = subst (λ (x : Removal). Within x.remove_ids more) step w in
              let room : running + a.bytes ≤ most = ground arith in
              let ih = total_bytes-add_oversized most (running + a.bytes) rest r more room behind in
              elim (Bool-cases (is_kept more a)) [
                | inl k ↦ rw k (omega (arith, ih))
                | inr k ↦ rw k (omega (arith, ih))
              ])
      ]

  add_by_age-Within :
      (limit : Option ℕ) (entries : List Artifact) (r : Removal)
      → Within r.remove_ids (add_by_age parse_date now missing_paths limit entries r).remove_ids
  unfolding add_by_age
  add_by_age-Within none entries r id h = h
  add_by_age-Within (some hours) entries r id h =
      for_each-Within (visit_aged parse_date now missing_paths hours) (visit_aged-Within hours)
        entries r id h

  add_beyond-Within :
      (limit : Option ℕ) (entries : List Artifact) (r : Removal)
      → Within r.remove_ids (add_beyond parse_date now missing_paths limit entries r).remove_ids
  unfolding add_beyond
  add_beyond-Within none entries r id h = h
  add_beyond-Within (some most) entries r id h = elim (Bool-cases (ltb most (length entries))) [
    | inl q ↦ rw q (
        for_each-Within (visit_counted parse_date now missing_paths) visit_counted-Within
          (drop most entries) r id h)
    | inr q ↦ rw q h
  ]

  add_by_size-Within :
      (limit : Option ℕ) (entries : List Artifact) (r : Removal)
      → Within r.remove_ids (add_by_size parse_date now missing_paths limit entries r).remove_ids
  unfolding add_by_size
  add_by_size-Within none entries r id h = h
  add_by_size-Within (some most) entries r id h = add_oversized-Within most 0 entries r id h

  -- Too old for the limit, if there is one.
  abbrev pub too_old_by : Option ℕ → Artifact → Bool
  too_old_by none a = false
  too_old_by (some hours) a = is_too_old parse_date now missing_paths hours a

  All-young : (xs : List Artifact) → All (λ a. too_old_by none a ≡ false) xs
  All-young [] = tt
  All-young (x ∷ xs) = (refl, All-young xs)

  aged_left :
      (limit : Option ℕ) (entries : List Artifact) (r : Removal) (more : List String)
      → Within (add_by_age parse_date now missing_paths limit entries r).remove_ids more
      → All (λ a. too_old_by limit a ≡ false) (keep (is_kept more) entries)
  unfolding add_by_age
  aged_left none entries r more w = All-young (keep (is_kept more) entries)
  aged_left (some hours) entries r more w =
      let visit = visit_aged parse_date now missing_paths hours in
      let test = is_too_old parse_date now missing_paths hours in
      Marked-kept test (for_each visit entries r).remove_ids more entries w
        (for_each-Marked visit (visit_aged-Within hours) test entries r (visit_aged-marks hours))

  counted_left :
      (limit : Option ℕ) (entries : List Artifact) (r : Removal) (more : List String)
      → Within (add_beyond parse_date now missing_paths limit entries r).remove_ids more
      → AtMost limit (length (keep (is_kept more) entries))
  unfolding add_beyond
  counted_left none entries r more w = tt
  counted_left (some most) entries r more w =
      let whole = add_beyond parse_date now missing_paths (some most) entries r in
      let visit = visit_counted parse_date now missing_paths in
      elim (Bool-cases (ltb most (length entries))) [
        | inr q ↦
            (let few : length entries ≤ most = ground arith in
              omega (arith, few, length-keep-le (is_kept more) entries))
        | inl q ↦
            (let others = drop most entries in
              let step : whole ≡ for_each visit others r = rw q refl in
              let behind = subst (λ (x : Removal). Within x.remove_ids more) step w in
              let never =
                Marked-kept (λ a. true) (for_each visit others r).remove_ids more others behind
                  (for_each-Marked visit visit_counted-Within (λ a. true) others r
                    visit_counted-marks) in
              omega (
                arith,
                length-keep-drop (is_kept more) most entries,
                length-impossible (keep (is_kept more) others) never,
              ))
      ]

  sized_left :
      (limit : Option ℕ) (entries : List Artifact) (r : Removal) (more : List String)
      → Within (add_by_size parse_date now missing_paths limit entries r).remove_ids more
      → AtMost limit (total_bytes (keep (is_kept more) entries))
  unfolding add_by_size
  sized_left none entries r more w = tt
  sized_left (some most) entries r more w =
      omega (arith, total_bytes-add_oversized most 0 entries r more (omega arith) w)

  -- The entries whose ids are not selected: none of them misses its file or is older than the age limit,
  -- they are at most as many as the count limit, and their sizes add up to at most the size limit. A limit
  -- that is not given allows everything.
  pub select-left :
      (limits : PruneLimits) (entries : List Artifact)
      → (let left = left_by (select parse_date now missing_paths limits entries) entries in
          All (λ a. is_missing parse_date now missing_paths a ≡ false) left
          × All (λ a. too_old_by limits.max_age_hours a ≡ false) left
          × AtMost limits.max_count (length left)
          × AtMost limits.max_total_bytes (total_bytes left))
  unfolding select
  select-left limits entries =
      let visit = visit_missing parse_date now missing_paths in
      let missing = for_each visit entries no_removal in
      let candidates = left_by missing entries in
      let aged = add_by_age parse_date now missing_paths limits.max_age_hours candidates missing in
      let after_age = left_by aged candidates in
      let counted = add_beyond parse_date now missing_paths limits.max_count after_age aged in
      let after_count = left_by counted after_age in
      let last =
        add_by_size parse_date now missing_paths limits.max_total_bytes after_count counted in
      let more = last.remove_ids in
      let w_counted : Within counted.remove_ids more =
        add_by_size-Within limits.max_total_bytes after_count counted in
      let w_aged : Within aged.remove_ids more =
        λ id h. w_counted id (add_beyond-Within limits.max_count after_age aged id h) in
      let w_missing : Within missing.remove_ids more =
        λ id h. w_aged id (add_by_age-Within limits.max_age_hours candidates missing id h) in
      let one = keep-left missing.remove_ids more entries w_missing in
      let two = keep-left aged.remove_ids more candidates w_aged ∙ one in
      let three = keep-left counted.remove_ids more after_age w_counted ∙ two in
      let Left = λ (x : List Artifact). All (λ a. too_old_by limits.max_age_hours a ≡ false) x in
      (
        Marked-kept (is_missing parse_date now missing_paths) missing.remove_ids more entries
            w_missing
            (for_each-Marked visit visit_missing-Within (is_missing parse_date now missing_paths)
              entries no_removal visit_missing-marks),
        subst Left one (aged_left limits.max_age_hours candidates missing more w_aged),
        subst (λ x. AtMost limits.max_count (length x)) two
            (counted_left limits.max_count after_age aged more w_counted),
        subst (λ x. AtMost limits.max_total_bytes (total_bytes x)) three
            (sized_left limits.max_total_bytes after_count counted more (λ id h. h)),
      )
