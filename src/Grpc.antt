-- ===== src/Grpc.antt =====
-- agent/src/grpc_client/mod.rs and agent/src/grpc_server/mod.rs: what nodes send each other.
pub mod Messages
pub mod Server
pub mod Chunks
pub mod Join
