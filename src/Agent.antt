-- ===== src/Agent.antt =====
-- The start of an agent: agent/src/config, agent/src/node, agent/src/main.rs and the set-up of
-- agent/src/raft/mod.rs.
pub mod Config
pub mod Identity
pub mod Startup
