-- ===== src/Jobs.antt =====
-- The jobs of a node: the records that agent/src/api_rest/mod.rs keeps, and what the executor of
-- agent/src/executor/mod.rs, the deletion of a job and a report from another node do to them.
pub mod Records
pub mod Submission
pub mod Executor
pub mod Conversions
pub mod Dispatch
pub mod Enqueue
pub mod Queries
