-- ===== src/Raft.antt =====
-- The replicated state machine and its log (agent/src/raft).
pub mod Commands
pub mod Machine
pub mod Log
pub mod Snapshot
pub mod Network
