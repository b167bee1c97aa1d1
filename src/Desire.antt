-- ===== src/Desire.antt =====
-- The desire contract, pkg/desire: its types, their validation, and what the stores share.
pub mod Types
pub mod Platform
pub mod Validate
pub mod Contract
pub mod Selector
