-- ===== src/Redis.antt =====
-- The Redis store, pkg/desire/store/redis/redis.go.
pub mod Key
pub mod Client
pub mod Cas
pub mod Apply
pub mod Delete
pub mod Read
pub mod Injective
pub mod Retry
pub mod Mutate
pub mod Refine
pub mod RefineSpec
pub mod Scan
pub mod Listing
pub mod Pages
pub mod Batches
pub mod ListRefine
