-- ===== src/State.antt =====
-- src/core/state: the maintenance of the saved state and of the files beside it.
pub mod SessionPrune
pub mod StateLock
pub mod IdleParking
pub mod DiskOptions
pub mod DiskEntries
pub mod DiskPrune
pub mod NetworkArtifacts
