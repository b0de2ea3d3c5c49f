-- ===== src/Cluster.antt =====
-- What a node knows of the other nodes, and what it does with it: agent/src/scheduler, agent/src/gossip
-- and agent/src/discovery.
pub mod Scheduler
pub mod Failures
pub mod Discovery
