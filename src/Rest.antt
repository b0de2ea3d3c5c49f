-- ===== src/Rest.antt =====
-- agent/src/api_rest/mod.rs, the parts that are not about one job.
pub mod Events
pub mod JobEvents
pub mod Access
pub mod Nodes
pub mod Objects
