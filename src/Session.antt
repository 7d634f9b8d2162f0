-- ===== src/Session.antt =====
-- src/core/session: sessions, their owners and leases.
pub mod Hygiene
pub mod Normalize
pub mod Samples
pub mod RuntimePool
