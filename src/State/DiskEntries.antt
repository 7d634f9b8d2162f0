-- ===== src/State/DiskEntries.antt =====
-- src/core/state/infra/disk-prune.ts: the entries of a directory and their sizes. A directory is the
-- finite tree below it, as `readdirSync` and `statSync` show it; `locale_less` is the order of
-- `localeCompare`, `path_join` that of the path module.
use surfwright.Base.{ℕ, ◌+◌, String, Bool, Option, none, some, List, [], ◌∷◌, if◌then◌else◌}

pub record DiskEntry : Type 0 where
  pub name : String
  pub path : String
  pub mtime_ms : ℕ
  pub bytes : ℕ

mutual
  -- `gone` has no stat; `unreadable` is a directory that cannot be listed. Times are of the stat.
  pub data Tree : Type 0 where
    gone : Tree
    file : ℕ → ℕ → Tree
    unreadable : ℕ → Tree
    directory : ℕ → Forest → Tree

  pub data Forest : Type 0 where
    leaf : Forest
    node : String → Tree → Forest → Forest

unfoldable mutual
  pub collect_path_bytes : Tree → ℕ
  collect_path_bytes gone = 0
  collect_path_bytes (file mtime size) = size
  collect_path_bytes (unreadable mtime) = 0
  collect_path_bytes (directory mtime forest) = collect_forest_bytes forest

  collect_forest_bytes : Forest → ℕ
  collect_forest_bytes leaf = 0
  collect_forest_bytes (node name tree rest) = collect_path_bytes tree + collect_forest_bytes rest

unfoldable pub safe_stat : Tree → Option ℕ
safe_stat gone = none
safe_stat (file mtime size) = some mtime
safe_stat (unreadable mtime) = some mtime
safe_stat (directory mtime forest) = some mtime

-- `Array.prototype.sort`, stable, by the test that the first of two comes strictly before.
module _ {ℓ} {A : Type ℓ} (before : A → A → Bool) where
  unfoldable pub place : A → List A → List A
  place a [] = a ∷ []
  place a (b ∷ bs) = if before b a then b ∷ place a bs else a ∷ b ∷ bs

  unfoldable pub sort : List A → List A
  sort [] = []
  sort (a ∷ rest) = place a (sort rest)

module _ (locale_less : String → String → Bool) (path_join : String → String → String) where
  abbrev named_before : String × Tree → String × Tree → Bool
  named_before (name, tree) (other, tree') = locale_less name other

  abbrev children : Forest → List (String × Tree)
  children leaf = []
  children (node name tree rest) = (name, tree) ∷ children rest

  entries_of : String → List (String × Tree) → List DiskEntry
  entries_of dir_path [] = []
  entries_of dir_path ((name, tree) ∷ rest) = elim (safe_stat tree) [
    | none ↦ entries_of dir_path rest
    | some mtime ↦
        record {
          name = name;
          path = path_join dir_path name;
          mtime_ms = mtime;
          bytes = collect_path_bytes tree;
        }
        ∷ entries_of dir_path rest
  ]

  -- What cannot be listed has no entries.
  unfoldable pub list_directory_entries : String → Tree → List DiskEntry
  unfolding sort place entries_of
  list_directory_entries dir_path (directory mtime forest) =
      entries_of dir_path (sort named_before (children forest))
  list_directory_entries dir_path _ = []
