-- ===== src/State/NetworkArtifacts/Tests.antt =====
-- src/core/state/repo/network-artifact-repo.ts: tests, and its theorem at concrete entries.
use surfwright.Base.{
  ℕ, String, true, false, ◌≡◌, refl, Option, none, some, List, [], ◌∷◌, All, Text, length, map,
  lookup, erase,
}
use surfwright.Base.Json.{finite}
use surfwright.State.DiskOptions.{Parsed, ok}
use surfwright.State.NetworkArtifacts.{
  Artifact, PruneLimits, ArtifactPruneReport, is_missing, left_by, select, for_each, visit_missing,
  visit_aged, visit_counted, add_by_age, add_beyond, add_oversized, add_by_size, delete_one,
  delete_all, parse_optional_range, parse_prune_limits, prune_network_artifacts_in_state,
  list_network_artifacts, parse_limit,
}
use surfwright.State.NetworkArtifacts.Marks.{AtMost, total_bytes}
use surfwright.State.NetworkArtifacts.Selection.{too_old_by, select-left}

abbrev parse_date : Text → Option ℕ
parse_date [] = none
parse_date (c ∷ t) = some c

abbrev artifact : String → ℕ → ℕ → Artifact
artifact id time size = record { artifact_id = id; created_at = time ∷ []; path = id; bytes = size }

abbrev artifacts : List (String × Artifact)
artifacts =
    ("n-4", artifact "n-4" 9000000 40)
    ∷ ("n-3", artifact "n-3" 8000000 70)
    ∷ ("n-2", artifact "n-2" 7000000 50)
    ∷ ("n-1", artifact "n-1" 10 1)
    ∷ ("n-0", artifact "n-0" 8000000 1)
    ∷ []

abbrev ids_of : Parsed ArtifactPruneReport → List String
ids_of (ok report) = map (λ (e : String × Artifact). e.0) report.deleted.artifacts
ids_of _ = []

-- n-0 misses its file, n-1 is too old, n-2 is one too many, and n-3 does not fit.
keeps_the_newest :
    ids_of (
      prune_network_artifacts_in_state parse_date 10000000
        (λ entries. entries)
        (some (finite 1 true))
        (some (finite 2 true))
        (some (finite 100 true))
        ("n-0" ∷ [])
        artifacts)
    ≡ "n-4" ∷ []
unfolding prune_network_artifacts_in_state parse_prune_limits parse_optional_range select for_each
    visit_missing visit_aged visit_counted add_by_age add_beyond add_oversized add_by_size
    delete_one delete_all lookup erase
keeps_the_newest = refl

lists_the_newest :
    list_network_artifacts (λ entries. entries) (some (finite 1 true)) artifacts
    ≡ ok record { total = 5; returned = 1; artifacts = artifact "n-4" 9000000 40 ∷ [] }
unfolding list_network_artifacts parse_limit
lists_the_newest = refl

abbrev limits : PruneLimits
limits = record { max_age_hours = some 1; max_count = some 2; max_total_bytes = some 100 }

abbrev entries : List Artifact
entries = map (λ (e : String × Artifact). e.1) artifacts

select-left_example :
    (let left = left_by (select parse_date 10000000 ("n-0" ∷ []) limits entries) entries in
      All (λ a. is_missing parse_date 10000000 ("n-0" ∷ []) a ≡ false) left
      × All (λ a. too_old_by parse_date 10000000 ("n-0" ∷ []) (some 1) a ≡ false) left
      × AtMost (some 2) (length left)
      × AtMost (some 100) (total_bytes left))
select-left_example = select-left parse_date 10000000 ("n-0" ∷ []) limits entries
