-- ===== src/Memory.antt =====
-- The in-memory store, pkg/desire/store/memory/store.go.
pub mod Record
pub mod Apply
pub mod Delete
pub mod Read
pub mod Query
pub mod Invariant
pub mod Facts
pub mod Keeps
pub mod Creates
pub mod Reach
pub mod Atomic
pub mod Access
pub mod Writes
pub mod Lifecycle
pub mod Listing
pub mod Supersede
