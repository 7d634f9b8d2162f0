-- ===== src/State/DiskPrune.antt =====
-- src/core/state/infra/disk-prune.ts: which entries of the run, capture and profile directories are
-- removed, and the report. The order of `localeCompare` and the functions of the path module are
-- parameters, the time of a call is `now`; a cutoff `now - hours` is written as a sum, since it may be
-- negative. The removals are the list of paths given to `rmSync`.
pub mod Retention
pub mod Orphans
mod Tests
use surfwright.Base.{
  ℕ, ◌+◌, ◌-◌, ◌*◌, String, Bool, true, false, not, ◌&&◌, ◌≡◌, Option, none, some, List, [], ◌∷◌,
  ◌++◌, any, if◌then◌else◌, ltb, leb, ◌==◌, length, Text, lit, text_eq, lookup, str_eq, ◌||◌,
}
use surfwright.Base.Json.{nonempty}
use surfwright.Session.Hygiene.{SessionState, managed, attached}
use surfwright.State.DiskOptions.{
  hours_to_ms, ParsedDiskPruneOptions, DiskPruneOptions, Parsed, ok, query_invalid,
  parse_disk_prune_options, ◌>>=◌,
}
use surfwright.State.DiskEntries.{DiskEntry, Tree, list_directory_entries, sort}

abbrev pub has_path : String → List String → Bool
has_path path paths = any (λ p. str_eq p path) paths

-- `Set.add`.
abbrev pub add_path : String → List String → List String
add_path path paths = if has_path path paths then paths else paths ++ (path ∷ [])

abbrev pub bytes_of : List DiskEntry → ℕ
bytes_of [] = 0
bytes_of (entry ∷ rest) = entry.bytes + bytes_of rest

abbrev pub kept_entries : List String → List DiskEntry → List DiskEntry
kept_entries paths [] = []
kept_entries paths (entry ∷ rest) =
    if has_path entry.path paths then kept_entries paths rest else entry ∷ kept_entries paths rest

pub record PruneReport : Type 0 where
  pub scanned : ℕ
  pub removed : ℕ
  pub bytes_before : ℕ
  pub bytes_after : ℕ
  pub bytes_freed : ℕ

abbrev pub report_of : List DiskEntry → List String → PruneReport
report_of entries paths = record {
  scanned = length entries;
  removed = length paths;
  bytes_before = bytes_of entries;
  bytes_after = bytes_of (kept_entries paths entries);
  bytes_freed = bytes_of entries - bytes_of (kept_entries paths entries);
}

abbrev empty_report : PruneReport
empty_report = record {
  scanned = 0;
  removed = 0;
  bytes_before = 0;
  bytes_after = 0;
  bytes_freed = 0;
}

pub record DiskPruneReport : Type 0 where
  pub dry_run : Bool
  pub total_bytes_before : ℕ
  pub total_bytes_after : ℕ
  pub total_bytes_freed : ℕ
  pub runs : PruneReport
  pub captures : PruneReport
  pub orphan_profiles : PruneReport
  pub workspace_profiles : PruneReport

abbrev removals : Bool → List String → List String
removals dry_run paths = if dry_run then [] else paths

module _ (locale_less : String → String → Bool) (now : ℕ) where
  abbrev pub newer : DiskEntry → DiskEntry → Bool
  newer a b =
      if a.mtime_ms == b.mtime_ms then locale_less a.name b.name else ltb b.mtime_ms a.mtime_ms

  abbrev pub too_old : ℕ → DiskEntry → Bool
  too_old max_age_hours entry = ltb (entry.mtime_ms + max_age_hours * hours_to_ms) now

  add_aged : ℕ → List DiskEntry → List String → List String
  add_aged max_age_hours [] paths = paths
  add_aged max_age_hours (entry ∷ rest) paths =
      add_aged max_age_hours rest
        (if too_old max_age_hours entry then add_path entry.path paths else paths)

  -- The newest entries that fit are kept; `running` is what the kept ones take.
  add_oversize : ℕ → ℕ → List DiskEntry → List String → List String
  add_oversize max_total running [] paths = paths
  add_oversize max_total running (entry ∷ rest) paths = elim (has_path entry.path paths) [
    | true ↦ add_oversize max_total running rest paths
    | false ↦ elim (ltb max_total (running + entry.bytes)) [
      | true ↦ add_oversize max_total running rest (add_path entry.path paths)
      | false ↦ add_oversize max_total (running + entry.bytes) rest paths
    ]
  ]

  abbrev by_age : Option ℕ → List DiskEntry → List String
  by_age none sorted = []
  by_age (some max_age_hours) sorted = add_aged max_age_hours sorted []

  abbrev by_size : Option ℕ → List DiskEntry → List String → List String
  by_size none sorted paths = paths
  by_size (some max_total) sorted paths = add_oversize max_total 0 sorted paths

  unfoldable pub pick_entries_to_remove : List DiskEntry → Option ℕ → Option ℕ → List String
  unfolding add_aged add_oversize
  pick_entries_to_remove entries max_age_hours max_total_bytes =
      let sorted = sort newer entries in
      by_size max_total_bytes sorted (by_age max_age_hours sorted)

  -- The order of the entries, the functions of the path module, and the tree at a path.
  module _ (path_join : String → String → String) (path_resolve : Text → Text)
      (tree_at : String → Tree) where
    abbrev pub entries_at : String → List DiskEntry
    entries_at dir_path = list_directory_entries locale_less path_join dir_path (tree_at dir_path)

    -- The report, and the paths that are removed.
    unfoldable pub prune_directory_by_age_and_size :
        String → Option ℕ → Option ℕ → Bool → PruneReport × List String
    prune_directory_by_age_and_size dir_path max_age_hours max_total_bytes dry_run =
        let paths = pick_entries_to_remove (entries_at dir_path) max_age_hours max_total_bytes in
        (report_of (entries_at dir_path) paths, removals dry_run paths)

    abbrev same_path : Option Text → String → Bool
    same_path none profile_path = false
    same_path (some dir) profile_path = text_eq (path_resolve dir) (path_resolve (lit profile_path))

    unfoldable pub managed_session_uses_path : Option SessionState → String → Bool
    managed_session_uses_path none profile_path = false
    managed_session_uses_path (some session) profile_path = elim session.kind [
      | attached ↦ false
      | managed ↦ same_path (nonempty session.user_data_dir) profile_path
    ]

    abbrev young : Option ℕ → DiskEntry → Bool
    young none entry = false
    young (some max_age_hours) entry = not (too_old max_age_hours entry)

    abbrev spared : List (String × SessionState) → Option ℕ → DiskEntry → Bool
    spared sessions max_age_hours entry =
        managed_session_uses_path (lookup entry.name sessions) entry.path
        || young max_age_hours entry

    add_orphans :
        List (String × SessionState) → Option ℕ → List DiskEntry → List String → List String
    add_orphans sessions max_age_hours [] paths = paths
    add_orphans sessions max_age_hours (entry ∷ rest) paths =
        add_orphans sessions max_age_hours rest
          (if spared sessions max_age_hours entry then paths else add_path entry.path paths)

    unfoldable pub prune_orphan_profiles :
        String → List (String × SessionState) → Option ℕ → Bool → PruneReport × List String
    unfolding add_orphans
    prune_orphan_profiles profiles_dir sessions max_age_hours dry_run =
        let paths = add_orphans sessions max_age_hours (entries_at profiles_dir) [] in
        (report_of (entries_at profiles_dir) paths, removals dry_run paths)

    -- `workspace_profiles` is disabled where it is none, and its numbers are then all 0.
    unfoldable pub prune_workspace :
        Option ℕ → Option String → List (String × SessionState) → Bool → PruneReport × List String
    prune_workspace (some max_age_hours) (some profiles_dir) sessions dry_run =
        prune_orphan_profiles profiles_dir sessions (some max_age_hours) dry_run
    prune_workspace _ _ sessions dry_run = (empty_report, [])

    abbrev total_report :
        ParsedDiskPruneOptions
        → PruneReport
        → PruneReport
        → PruneReport
        → PruneReport
        → DiskPruneReport
    total_report parsed runs captures orphans workspace =
        let before =
          runs.bytes_before + captures.bytes_before + orphans.bytes_before
          + workspace.bytes_before in
        let after =
          runs.bytes_after + captures.bytes_after + orphans.bytes_after + workspace.bytes_after in
        record {
          dry_run = parsed.dry_run;
          total_bytes_before = before;
          total_bytes_after = after;
          total_bytes_freed = before - after;
          runs = runs;
          captures = captures;
          orphan_profiles = orphans;
          workspace_profiles = workspace;
        }

    abbrev prune_parsed :
        String
        → Option String
        → List (String × SessionState)
        → ParsedDiskPruneOptions
        → Parsed (DiskPruneReport × List String)
    prune_parsed root workspace_dir sessions parsed =
        let (runs, runs_paths) =
          prune_directory_by_age_and_size (path_join root "runs") parsed.runs_max_age_hours
            parsed.runs_max_total_bytes parsed.dry_run in
        let (captures, captures_paths) =
          prune_directory_by_age_and_size (path_join root "captures") parsed.captures_max_age_hours
            parsed.captures_max_total_bytes parsed.dry_run in
        let (orphans, orphans_paths) =
          prune_orphan_profiles (path_join root "profiles") sessions
            parsed.orphan_profiles_max_age_hours parsed.dry_run in
        let (workspace, workspace_paths) =
          prune_workspace parsed.workspace_profiles_max_age_hours workspace_dir sessions
            parsed.dry_run in
        ok (
          total_report parsed runs captures orphans workspace,
          runs_paths ++ captures_paths ++ orphans_paths ++ workspace_paths,
        )

    -- `workspace_dir` is the profiles directory of the workspace, where there is one.
    unfoldable pub state_disk_prune :
        String
        → Option String
        → List (String × SessionState)
        → DiskPruneOptions
        → Parsed (DiskPruneReport × List String)
    state_disk_prune root workspace_dir sessions options =
        parse_disk_prune_options options >>= prune_parsed root workspace_dir sessions
