-- ===== src/Grpc/Server/Delegation.antt =====
-- agent/src/grpc_client/mod.rs and agent/src/grpc_server/mod.rs: a job that one node hands to another.
use all4one.Prelude.{nat_eq}
