-- ===== src/Controllers.antt =====
-- The reconcilers of internal/controllers, and the parts of the cluster that they use.
pub mod Cluster
pub mod DeleteDesire
pub mod DeletePass
pub mod ApplyDesire
pub mod ApplyPass
pub mod Target
pub mod Absent
pub mod Applied
pub mod ReadDesire
pub mod Serial
pub mod Order
