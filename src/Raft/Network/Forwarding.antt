-- ===== src/Raft/Network/Forwarding.antt =====
-- agent/src/raft/network.rs and agent/src/grpc_server/raft_service.rs: a call over the network is a call
-- of the other node's openraft.
use all4one.Prelude.{
  ◌≡◌, refl, ap, Option, none, some, ◌++◌, Text, Bytes, codes, Result, ok, err, panic,
}
use all4one.External.Serde.{Serde}
use all4one.Grpc.Server.{internal, unavailable}
use all4one.Raft.Network.{Call, OpenRaft}
use all4one.Raft.Network.Service
use all4one.Raft.Network.Client
use all4one.Raft.Network.Service.{own_raft, reply, handle}
use all4one.Raft.Network.Client.{GrpcNetwork, RpcError, network, status, read_reply, send}

-- Every value can be written.
abbrev pub Writes : {A : Type 0} → Serde A → Type 0
Writes {A = A} json = (a : A) → (b : Bytes) × (json.to_vec a ≡ some b)

-- What the caller sees of the answer of the other node.
abbrev pub seen : {Resp : Type 0} → Result Text Resp → Result RpcError Resp
seen (ok resp) = ok resp
seen (err e) = err (network (status (internal (codes "raft: " ++ e))))
seen panic = panic

abbrev pub not_participant : {Resp : Type 0} → Result RpcError Resp
not_participant = err (network (status (unavailable (codes "not a quorum participant"))))

-- A call of the other node, of which nothing is left but its openraft.
abbrev pub direct :
    {R Req Resp : Type 0} → Call R Req Resp → Req → Option R → Result RpcError Resp × Option R
direct call req none = (not_participant, none)
direct call req (some r) = let (answer, r') = call r req in (seen answer, some r')

read_reply-reply :
    {Resp : Type 0} (resp_json : Serde Resp)
    → Writes resp_json
    → (answer : Result Text Resp) → read_reply resp_json (reply resp_json answer) ≡ seen answer
unfolding read_reply reply
read_reply-reply resp_json writes (err e) = refl
read_reply-reply resp_json writes panic = refl
read_reply-reply resp_json writes (ok resp) =
    let (b, written) = writes resp in
    rw (reply, written) (rw (read_reply, resp_json.from_slice-to_vec resp b written) refl)

module _ {R Req Resp : Type 0} (req_json : Serde Req) (resp_json : Serde Resp)
    (call : Call R Req Resp) where
  send-handle :
      Writes req_json
      → Writes resp_json
      → (n : GrpcNetwork) (req : Req) (raft : Option R)
      → send req_json resp_json (λ endpoint. handle req_json resp_json call) n req raft
        ≡ direct call req raft
  unfolding send handle own_raft read_reply
  send-handle writes_req writes_resp n req none =
      let (b, written) = writes_req req in rw (send, written) refl
  send-handle writes_req writes_resp n req (some r) =
      let (b, written) = writes_req req in
      rw (send, written)
        (rw (handle, req_json.from_slice-to_vec req b written)
          (ap (λ a. (a, some (call r req).1))
            (read_reply-reply resp_json writes_resp (call r req).0)))

-- If requests and answers can be written and the messages arrive, each of the three calls over the
-- network does to the other node, and answers, what the call of its openraft itself does: an error of
-- openraft comes back as an error of the network with its text, and a node that is no quorum participant
-- is left alone and answers that it is unavailable.
pub rpcs_reach_raft :
    (o : OpenRaft)
    → Writes o.append_request_json
    → Writes o.append_response_json
    → Writes o.vote_request_json
    → Writes o.vote_response_json
    → Writes o.snapshot_request_json
    → Writes o.snapshot_response_json
    → (n : GrpcNetwork) (raft : Option o.Raft) (append : o.AppendRequest) (ballot : o.VoteRequest)
      (snapshot : o.SnapshotRequest)
    → (Client.append_entries o (λ endpoint. Service.append_entries o) n append raft
        ≡ direct o.append_entries append raft)
      × (Client.vote o (λ endpoint. Service.vote o) n ballot raft ≡ direct o.vote ballot raft)
      × (Client.install_snapshot o (λ endpoint. Service.install_snapshot o) n snapshot raft
          ≡ direct o.install_snapshot snapshot raft)
unfolding Client.append_entries Client.vote Client.install_snapshot Service.append_entries
    Service.vote Service.install_snapshot
rpcs_reach_raft o wa wa' wv wv' ws ws' n raft append ballot snapshot = (
  send-handle o.append_request_json o.append_response_json o.append_entries wa wa' n append raft,
  send-handle o.vote_request_json o.vote_response_json o.vote wv wv' n ballot raft,
  send-handle o.snapshot_request_json o.snapshot_response_json o.install_snapshot ws ws' n snapshot
      raft,
)
