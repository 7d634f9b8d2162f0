-- ===== src/State/DiskOptions/Tests.antt =====
-- src/core/state/infra/disk-prune.ts: the check of an option, at a concrete one.
