-- ===== src/Daemon.antt =====
-- src/core/daemon: the lane scheduler, lane keys, the worker's protocol.
pub mod Scheduler
pub mod LaneKey
pub mod Request
