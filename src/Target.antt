-- ===== src/Target.antt =====
-- src/core/target: the commands on a page.
pub mod SnapshotDiff
