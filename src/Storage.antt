-- ===== src/Storage.antt =====
-- The object storage of a node (agent/src/storage).
pub mod Policy
pub mod Erasure
pub mod Metadata
pub mod Index
pub mod Chunks
pub mod Placement
