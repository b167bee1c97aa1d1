-- ===== src/Leadership.antt =====
-- The leader election lock and the gate on cluster writes.
pub mod Lock
pub mod Freshness
pub mod Handover
pub mod Exit
