-- ===== src/Raft/Network/Client.antt =====
-- agent/src/raft/network.rs: sending the calls of openraft to another node. What happens to a message on
-- its way is an argument.
use all4one.Prelude.{none, some, ◌++◌, Text, Bytes, codes, Result, ok, err, panic}
use all4one.External.Serde.{Serde}
use all4one.Grpc.Server.{Status}
use all4one.Raft.Network.{OpenRaft}

pub record GrpcNetwork : Type 0 where
  pub target_id : Text
  pub target_addr : Text

-- What an error of the network wraps.
pub data Cause : Type 0 where
  json : Cause
  status : Status → Cause

pub data RpcError : Type 0 where
  network : Cause → RpcError

-- Connecting to an endpoint and calling one of its methods, with the state of the other side.
abbrev pub Transport : (S : Type 0) → Type 0
Transport S = (endpoint : Text) → Bytes → S → Result Status Bytes × S

unfoldable pub read_reply :
    {Resp : Type 0} → Serde Resp → Result Status Bytes → Result RpcError Resp
read_reply resp_json (err e) = err (network (status e))
read_reply resp_json panic = panic
read_reply resp_json (ok payload) = elim (resp_json.from_slice payload) [
  | none ↦ err (network json)
  | some resp ↦ ok resp
]

module _ {S Req Resp : Type 0} (req_json : Serde Req) (resp_json : Serde Resp)
    (deliver : Transport S) where
  -- What each of the three calls does.
  unfoldable pub send : GrpcNetwork → Req → S → Result RpcError Resp × S
  unfolding read_reply
  send n rpc s = elim (req_json.to_vec rpc) [
    | none ↦ (err (network json), s)
    | some payload ↦
        let (answer, s') = deliver (codes "http://" ++ n.target_addr) payload s in
        (read_reply resp_json answer, s')
  ]

module _ (o : OpenRaft) {S : Type 0} (deliver : Transport S) where
  unfoldable pub append_entries :
      GrpcNetwork → o.AppendRequest → S → Result RpcError o.AppendResponse × S
  append_entries = send o.append_request_json o.append_response_json deliver

  unfoldable pub vote : GrpcNetwork → o.VoteRequest → S → Result RpcError o.VoteResponse × S
  vote = send o.vote_request_json o.vote_response_json deliver

  unfoldable pub install_snapshot :
      GrpcNetwork → o.SnapshotRequest → S → Result RpcError o.SnapshotResponse × S
  install_snapshot = send o.snapshot_request_json o.snapshot_response_json deliver
