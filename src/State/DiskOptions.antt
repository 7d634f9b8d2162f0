-- ===== src/State/DiskOptions.antt =====
-- src/core/state/infra/disk-prune.ts: the limits that a call may set, and their check.
pub mod Limits
mod Tests
use surfwright.Base.{
  ℕ, ◌*◌, Bool, true, false, not, ◌||◌, ◌≡◌, Option, none, some, if◌then◌else◌, ltb, Text, lit,
  String,
}
use surfwright.Base.Json.{Number, finite, negative, not_finite}

abbrev pub hours_to_ms : ℕ
hours_to_ms = 60 * 60 * 1000

abbrev mb_to_bytes : ℕ
mb_to_bytes = 1024 * 1024

abbrev pub min_max_age_hours : ℕ
min_max_age_hours = 1

abbrev pub max_max_age_hours : ℕ
max_max_age_hours = 24 * 365 * 5

abbrev pub min_max_total_bytes : ℕ
min_max_total_bytes = mb_to_bytes

abbrev pub max_max_total_bytes : ℕ
max_max_total_bytes = 1024 * 1024 * mb_to_bytes

abbrev default_runs_max_age_hours : ℕ
default_runs_max_age_hours = 24 * 7

abbrev default_max_total_bytes : ℕ
default_max_total_bytes = 1024 * mb_to_bytes

abbrev default_captures_max_age_hours : ℕ
default_captures_max_age_hours = 24 * 3

abbrev default_orphan_profiles_max_age_hours : ℕ
default_orphan_profiles_max_age_hours = 24

-- `number | null | undefined`.
pub data Given : Type 0 where
  undefined null : Given
  number : Number → Given

-- A value, or the CliError E_QUERY_INVALID with the name and the limits of its message.
pub data Parsed {ℓ} (A : Type ℓ) : Type ℓ where
  ok : A → Parsed A
  query_invalid : String → ℕ → ℕ → Parsed A

infixl 5 ◌>>=◌
abbrev pub ◌>>=◌ {ℓ κ} : {A : Type ℓ} {B : Type κ} → Parsed A → (A → Parsed B) → Parsed B
ok a >>= f = f a
query_invalid name low high >>= f = query_invalid name low high

unfoldable pub parse_optional_retention_number :
    Given → String → ℕ → ℕ → Option ℕ → Parsed (Option ℕ)
parse_optional_retention_number undefined name low high fallback = ok fallback
parse_optional_retention_number null name low high fallback = ok none
parse_optional_retention_number (number (finite n exact)) name low high fallback =
    if not exact || ltb n low || ltb high n then query_invalid name low high else ok (some n)
parse_optional_retention_number (number _) name low high fallback = query_invalid name low high

pub record DiskPruneOptions : Type 0 where
  pub runs_max_age_hours : Given
  pub runs_max_total_bytes : Given
  pub captures_max_age_hours : Given
  pub captures_max_total_bytes : Given
  pub orphan_profiles_max_age_hours : Given
  pub workspace_profiles_max_age_hours : Given
  pub dry_run : Bool

pub record ParsedDiskPruneOptions : Type 0 where
  pub runs_max_age_hours : Option ℕ
  pub runs_max_total_bytes : Option ℕ
  pub captures_max_age_hours : Option ℕ
  pub captures_max_total_bytes : Option ℕ
  pub orphan_profiles_max_age_hours : Option ℕ
  pub workspace_profiles_max_age_hours : Option ℕ
  pub dry_run : Bool

abbrev hours : Given → String → Option ℕ → Parsed (Option ℕ)
hours value name fallback =
    parse_optional_retention_number value name min_max_age_hours max_max_age_hours fallback

abbrev bytes : Given → String → Parsed (Option ℕ)
bytes value name =
    parse_optional_retention_number value name min_max_total_bytes max_max_total_bytes
      (some default_max_total_bytes)

unfoldable pub parse_disk_prune_options : DiskPruneOptions → Parsed ParsedDiskPruneOptions
parse_disk_prune_options opts = do
  runs_hours ← hours opts.runs_max_age_hours "runs-max-age-hours" (some default_runs_max_age_hours)
  runs_bytes ← bytes opts.runs_max_total_bytes "runs-max-total-bytes"
  captures_hours ←
      hours opts.captures_max_age_hours "captures-max-age-hours"
        (some default_captures_max_age_hours)
  captures_bytes ← bytes opts.captures_max_total_bytes "captures-max-total-bytes"
  orphan_hours ←
      hours opts.orphan_profiles_max_age_hours "orphan-profiles-max-age-hours"
        (some default_orphan_profiles_max_age_hours)
  workspace_hours ←
      hours opts.workspace_profiles_max_age_hours "workspace-profiles-max-age-hours" none
  ok record {
    runs_max_age_hours = runs_hours;
    runs_max_total_bytes = runs_bytes;
    captures_max_age_hours = captures_hours;
    captures_max_total_bytes = captures_bytes;
    orphan_profiles_max_age_hours = orphan_hours;
    workspace_profiles_max_age_hours = workspace_hours;
    dry_run = opts.dry_run;
  }
