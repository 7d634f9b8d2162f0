-- ===== src/State/DiskPrune/Tests.antt =====
-- src/core/state/infra/disk-prune.ts, its theorems at concrete directories. The order of names is by
-- length, and a path is its name.
use surfwright.Base.{
  ◌≤◌, String, ◌≡◌, ◌↔◌, refl, true, false, Bool, some, List, [], ◌∷◌, Text, lit, here, lookup,
}
use surfwright.Session.Hygiene.{SessionState}
use surfwright.Session.Samples.{worker}
use surfwright.State.DiskEntries.{
  DiskEntry, Tree, directory, file, leaf, node, sort, place, list_directory_entries, safe_stat,
}
use surfwright.State.DiskPrune.{
  has_path, bytes_of, kept_entries, pick_entries_to_remove, add_aged, add_oversize,
  prune_orphan_profiles, add_orphans, managed_session_uses_path,
}
use surfwright.State.DiskPrune.Retention.{
  pick_entries_to_remove-bound, pick_entries_to_remove-too_old,
}
use surfwright.State.DiskPrune.Orphans.{Orphan, prune_orphan_profiles-removed}

abbrev by_nothing : String → String → Bool
by_nothing a b = false

abbrev old_run : DiskEntry
old_run = record { name = "a"; path = "runs/a"; mtime_ms = 0; bytes = 10 }

abbrev new_run : DiskEntry
new_run = record { name = "b"; path = "runs/b"; mtime_ms = 9000000; bytes = 70 }

abbrev newest_run : DiskEntry
newest_run = record { name = "c"; path = "runs/c"; mtime_ms = 9500000; bytes = 50 }

abbrev runs : List DiskEntry
runs = old_run ∷ new_run ∷ newest_run ∷ []

-- The first is too old, the second does not fit beside the newest.
picks :
    pick_entries_to_remove by_nothing 10000000 runs (some 1) (some 100) ≡ "runs/a" ∷ "runs/b" ∷ []
unfolding pick_entries_to_remove add_aged add_oversize sort place
picks = refl

pick_entries_to_remove-bound_example :
    bytes_of
      (kept_entries (pick_entries_to_remove by_nothing 10000000 runs (some 1) (some 100)) runs)
    ≤ 100
pick_entries_to_remove-bound_example =
    pick_entries_to_remove-bound by_nothing 10000000 runs (some 1) 100

pick_entries_to_remove-too_old_example :
    has_path "runs/a" (pick_entries_to_remove by_nothing 10000000 runs (some 1) (some 100)) ≡ true
pick_entries_to_remove-too_old_example =
    pick_entries_to_remove-too_old by_nothing 10000000 runs old_run 1 (some 100) here refl

abbrev join : String → String → String
join dir name = name

abbrev same : Text → Text
same t = t

abbrev profiles_at : String → Tree
profiles_at path = directory 0 (node "s-9" (file 0 10) leaf)

-- The profile of a workspace, which the session `p.s-9` uses.
abbrev workspace_session : List (String × SessionState)
workspace_session =
    ("p.s-9", record worker { session_id = "p.s-9"; user_data_dir = some (lit "s-9") }) ∷ []

prune_orphan_profiles-removed_example :
    (has_path "s-9"
        (prune_orphan_profiles by_nothing 10000000 join same profiles_at "profiles"
          workspace_session
          (some 1)
          false).1
      ≡ true)
    ↔ ((false ≡ false)
        × Orphan by_nothing 10000000 join same profiles_at "profiles" workspace_session
            (some 1)
            "s-9")
prune_orphan_profiles-removed_example =
    prune_orphan_profiles-removed by_nothing 10000000 join same profiles_at "profiles"
      workspace_session (some 1) false "s-9"

-- It is removed.
used_profile_removed :
    (prune_orphan_profiles by_nothing 10000000 join same profiles_at "profiles" workspace_session
      (some 1)
      false).1
    ≡ "s-9" ∷ []
unfolding prune_orphan_profiles add_orphans list_directory_entries sort place safe_stat
    managed_session_uses_path lookup
used_profile_removed = refl
