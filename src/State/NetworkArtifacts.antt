-- ===== src/State/NetworkArtifacts.antt =====
-- src/core/state/repo/network-artifact-repo.ts, the list and the prune of artifacts. Date.parse, the clock and
-- the sort by time, newest first, are parameters; sizes are not negative. The ids to remove are a list
-- in the order of the Set.
pub mod Marks
pub mod Selection
mod Tests
use surfwright.Base.{
  ℕ, suc, ◌+◌, ◌*◌, String, Bool, true, false, not, ◌&&◌, ◌||◌, Option, none, some, List, [], ◌∷◌,
  ◌++◌, if◌then◌else◌, ltb, length, keep, take, drop, map, any, str_eq, Text, lookup, erase,
}
use surfwright.Base.Json.{Number, finite, negative, not_finite}
use surfwright.State.DiskOptions.{Parsed, ok, query_invalid, ◌>>=◌}

pub record Artifact : Type 0 where
  pub artifact_id : String
  pub created_at : Text
  pub path : String
  pub bytes : ℕ

pub record PruneLimits : Type 0 where
  pub max_age_hours : Option ℕ
  pub max_count : Option ℕ
  pub max_total_bytes : Option ℕ

-- `parseOptionalRange` of a number or undefined.
unfoldable pub parse_optional_range : Option Number → String → ℕ → ℕ → Parsed (Option ℕ)
parse_optional_range none name low high = ok none
parse_optional_range (some (finite n exact)) name low high =
    if not exact || ltb n low || ltb high n then query_invalid name low high else ok (some n)
parse_optional_range (some _) name low high = query_invalid name low high

unfoldable pub parse_prune_limits :
    Option Number → Option Number → Option Number → Parsed PruneLimits
parse_prune_limits age count total = do
  max_age_hours ← parse_optional_range age "max-age-hours" 1 8760
  max_count ← parse_optional_range count "max-count" 1 10000
  max_total_bytes ← parse_optional_range total "max-total-bytes" 1 100000000000
  ok record {
    max_age_hours = max_age_hours;
    max_count = max_count;
    max_total_bytes = max_total_bytes;
  }

abbrev pub has_id : String → List String → Bool
has_id id ids = any (str_eq id) ids

abbrev pub set_add : String → List String → List String
set_add id ids = if has_id id ids then ids else ids ++ (id ∷ [])

pub record Removal : Type 0 where
  pub remove_ids : List String
  pub missing_files : ℕ
  pub by_age : ℕ
  pub by_count : ℕ
  pub by_size : ℕ

abbrev pub no_removal : Removal
no_removal = record { remove_ids = []; missing_files = 0; by_age = 0; by_count = 0; by_size = 0 }

abbrev pub is_kept : List String → Artifact → Bool
is_kept ids artifact = not (has_id artifact.artifact_id ids)

-- The entries that are left by what was removed so far.
abbrev pub left_by : Removal → List Artifact → List Artifact
left_by r entries = keep (is_kept r.remove_ids) entries

-- A loop that looks at each entry.
unfoldable pub for_each : (Artifact → Removal → Removal) → List Artifact → Removal → Removal
for_each visit [] r = r
for_each visit (a ∷ rest) r = for_each visit rest (visit a r)

module _ (parse_date : Text → Option ℕ) (now : ℕ) (missing_paths : List String) where
  abbrev pub is_missing : Artifact → Bool
  is_missing a = has_id a.path missing_paths

  unfoldable pub visit_missing : Artifact → Removal → Removal
  visit_missing a r =
      if is_missing a
      then record r {
        remove_ids = set_add a.artifact_id r.remove_ids;
        missing_files = suc r.missing_files;
      }
      else r

  -- Created at a known time before the cutoff, `now` less so many hours.
  abbrev pub is_too_old : ℕ → Artifact → Bool
  is_too_old hours a = elim (parse_date a.created_at) [
    | none ↦ false
    | some created ↦ ltb (created + hours * 60 * 60 * 1000) now
  ]

  unfoldable pub visit_aged : ℕ → Artifact → Removal → Removal
  visit_aged hours a r =
      if is_too_old hours a
      then record r { remove_ids = set_add a.artifact_id r.remove_ids; by_age = suc r.by_age }
      else r

  unfoldable pub add_by_age : Option ℕ → List Artifact → Removal → Removal
  add_by_age none entries r = r
  add_by_age (some hours) entries r = for_each (visit_aged hours) entries r

  unfoldable pub visit_counted : Artifact → Removal → Removal
  visit_counted a r = record r {
    remove_ids = set_add a.artifact_id r.remove_ids;
    by_count = suc r.by_count;
  }

  unfoldable pub add_beyond : Option ℕ → List Artifact → Removal → Removal
  add_beyond none entries r = r
  add_beyond (some most) entries r =
      if ltb most (length entries) then for_each visit_counted (drop most entries) r else r

  -- One that does not fit is passed over, and a smaller one behind it may fit.
  unfoldable pub add_oversized : ℕ → ℕ → List Artifact → Removal → Removal
  add_oversized most running [] r = r
  add_oversized most running (a ∷ rest) r =
      let removed =
        add_oversized most running rest
          record r { remove_ids = set_add a.artifact_id r.remove_ids; by_size = suc r.by_size } in
      let kept = add_oversized most (running + a.bytes) rest r in
      if ltb most (running + a.bytes) then removed else kept

  unfoldable pub add_by_size : Option ℕ → List Artifact → Removal → Removal
  add_by_size none entries r = r
  add_by_size (some most) entries r = add_oversized most 0 entries r

  -- What to remove of the entries, newest first.
  unfoldable pub select : PruneLimits → List Artifact → Removal
  select limits entries =
      let missing = for_each visit_missing entries no_removal in
      let candidates = left_by missing entries in
      let aged = add_by_age limits.max_age_hours candidates missing in
      let after_age = left_by aged candidates in
      let counted = add_beyond limits.max_count after_age aged in
      let after_count = left_by counted after_age in
      add_by_size limits.max_total_bytes after_count counted

pub record Deleted : Type 0 where
  pub artifacts : List (String × Artifact)
  pub removed_paths : List String

-- An id that is not there is passed over.
unfoldable pub delete_one : String → Option Artifact → Deleted → Deleted
delete_one id none d = d
delete_one id (some a) d = record {
  artifacts = erase id d.artifacts;
  removed_paths = d.removed_paths ++ (a.path ∷ []);
}

unfoldable pub delete_all : List String → Deleted → Deleted
delete_all [] d = d
delete_all (id ∷ ids) d = delete_all ids (delete_one id (lookup id d.artifacts) d)

pub record ArtifactPruneReport : Type 0 where
  pub total_before : ℕ
  pub total_after : ℕ
  pub removal : Removal
  pub deleted : Deleted

-- With the order of the entries, newest first.
unfoldable pub prune_network_artifacts_in_state :
    (Text → Option ℕ)
    → ℕ
    → (List Artifact → List Artifact)
    → Option Number
    → Option Number
    → Option Number
    → List String
    → List (String × Artifact)
    → Parsed ArtifactPruneReport
prune_network_artifacts_in_state parse_date now newest_first age count total missing_paths
      artifacts =
    do
      limits ← parse_prune_limits age count total
      let entries = newest_first (map (λ (e : String × Artifact). e.1) artifacts)
      let removal = select parse_date now missing_paths limits entries
      let deleted =
          delete_all removal.remove_ids record { artifacts = artifacts; removed_paths = [] }
      ok record {
        total_before = length entries;
        total_after = length deleted.artifacts;
        removal = removal;
        deleted = deleted;
      }

unfoldable pub parse_limit : Option Number → Parsed ℕ
parse_limit none = ok 50
parse_limit (some (finite n exact)) =
    if not exact || ltb n 1 || ltb 5000 n then query_invalid "limit" 1 5000 else ok n
parse_limit (some _) = query_invalid "limit" 1 5000

pub record Listing : Type 0 where
  pub total : ℕ
  pub returned : ℕ
  pub artifacts : List Artifact

unfoldable pub list_network_artifacts :
    (List Artifact → List Artifact) → Option Number → List (String × Artifact) → Parsed Listing
list_network_artifacts newest_first limit artifacts = do
  most ← parse_limit limit
  let listed = take most (newest_first (map (λ (e : String × Artifact). e.1) artifacts))
  ok record { total = length artifacts; returned = length listed; artifacts = listed }
