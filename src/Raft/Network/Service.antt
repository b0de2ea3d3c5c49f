-- ===== src/Raft/Network/Service.antt =====
-- agent/src/grpc_server/raft_service.rs: a node takes the calls of other nodes to its openraft.
use all4one.Prelude.{Option, none, some, ◌++◌, Text, Bytes, codes, Result, ok, err, panic}
use all4one.External.Serde.{Serde}
use all4one.Grpc.Server.{Status, invalid_argument, internal, unavailable}
use all4one.Raft.Network.{Call, OpenRaft}

-- `raft` of the service: a node that is no quorum participant has none.
unfoldable pub own_raft : {R : Type 0} → Option R → Result Status R
own_raft none = err (unavailable (codes "not a quorum participant"))
own_raft (some r) = ok r

unfoldable pub reply : {Resp : Type 0} → Serde Resp → Result Text Resp → Result Status Bytes
reply resp_json (err e) = err (internal (codes "raft: " ++ e))
reply resp_json panic = panic
reply resp_json (ok resp) = elim (resp_json.to_vec resp) [
  | none ↦ err (internal (codes "serialize"))
  | some payload ↦ ok payload
]

module _ {R Req Resp : Type 0} (req_json : Serde Req) (resp_json : Serde Resp)
    (call : Call R Req Resp) where
  -- What each of the three handlers does; the library's text of an error of serde_json is left out.
  unfoldable pub handle : Bytes → Option R → Result Status Bytes × Option R
  unfolding own_raft reply
  handle payload raft = elim (own_raft raft) [
    | err e ↦ (err e, raft)
    | panic ↦ (panic, raft)
    | ok r ↦ elim (req_json.from_slice payload) [
      | none ↦ (err (invalid_argument (codes "deserialize")), raft)
      | some req ↦ let (answer, r') = call r req in (reply resp_json answer, some r')
    ]
  ]

module _ (o : OpenRaft) where
  unfoldable pub append_entries : Bytes → Option o.Raft → Result Status Bytes × Option o.Raft
  append_entries = handle o.append_request_json o.append_response_json o.append_entries

  unfoldable pub vote : Bytes → Option o.Raft → Result Status Bytes × Option o.Raft
  vote = handle o.vote_request_json o.vote_response_json o.vote

  unfoldable pub install_snapshot : Bytes → Option o.Raft → Result Status Bytes × Option o.Raft
  install_snapshot = handle o.snapshot_request_json o.snapshot_response_json o.install_snapshot
