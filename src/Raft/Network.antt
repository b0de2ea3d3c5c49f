-- ===== src/Raft/Network.antt =====
-- agent/src/raft/network.rs and agent/src/grpc_server/raft_service.rs: the calls that the nodes of a
-- consensus make of each other. openraft's node, its requests and its answers are parameters.
pub mod Service
pub mod Client
pub mod Forwarding
use all4one.Prelude.{Text, Result}
use all4one.External.Serde.{Serde}

-- A call of openraft's node: the answer and the node after it.
abbrev pub Call : (Raft Req Resp : Type 0) → Type 0
Call Raft Req Resp = Raft → Req → Result Text Resp × Raft

pub record OpenRaft : Type 1 where
  pub Raft : Type 0
  pub AppendRequest : Type 0
  pub AppendResponse : Type 0
  pub VoteRequest : Type 0
  pub VoteResponse : Type 0
  pub SnapshotRequest : Type 0
  pub SnapshotResponse : Type 0
  pub append_entries : Call Raft AppendRequest AppendResponse
  pub vote : Call Raft VoteRequest VoteResponse
  pub install_snapshot : Call Raft SnapshotRequest SnapshotResponse
  pub append_request_json : Serde AppendRequest
  pub append_response_json : Serde AppendResponse
  pub vote_request_json : Serde VoteRequest
  pub vote_response_json : Serde VoteResponse
  pub snapshot_request_json : Serde SnapshotRequest
  pub snapshot_response_json : Serde SnapshotResponse
