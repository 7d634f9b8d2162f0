-- ===== src/State/DiskOptions/Limits.antt =====
-- src/core/state/infra/disk-prune.ts: options that are accepted are within their limits.
use surfwright.Base.{ℕ, ◌≤◌, Option, none, some}

-- No limit, or one within the bounds.
abbrev pub Within : ℕ → ℕ → Option ℕ → Type 0
Within low high none = Unit
Within low high (some n) = (low ≤ n) × (n ≤ high)
