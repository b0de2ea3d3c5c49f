-- ===== src/Examples/NetworkExamples.antt =====
-- The property of agent/src/raft/network.rs at a small consensus.
use all4one.Prelude.{ℕ, ◌≡◌, refl, some, ltb, [], ◌∷◌, codes, ok, err, if◌then◌else◌}
use all4one.Raft.Network.{Call, OpenRaft}
use all4one.Raft.Network.Client
use all4one.Raft.Network.Service
use all4one.Raft.Network.Client.{GrpcNetwork}
use all4one.Raft.Network.Forwarding.{Writes, direct, rpcs_reach_raft}
use all4one.Examples.Stored.{number_json}

-- A node is its term; it refuses a call of an older term, and else takes the term over.
abbrev follow : Call ℕ ℕ ℕ
follow own term = if ltb term own then (err (codes "old term"), own) else (ok term, term)

abbrev terms : OpenRaft
terms = record {
  Raft = ℕ;
  AppendRequest = ℕ;
  AppendResponse = ℕ;
  VoteRequest = ℕ;
  VoteResponse = ℕ;
  SnapshotRequest = ℕ;
  SnapshotResponse = ℕ;
  append_entries = follow;
  vote = follow;
  install_snapshot = follow;
  append_request_json = number_json;
  append_response_json = number_json;
  vote_request_json = number_json;
  vote_response_json = number_json;
  snapshot_request_json = number_json;
  snapshot_response_json = number_json;
}

number_json-Writes : Writes number_json
number_json-Writes n = (n ∷ [], refl)

abbrev peer : GrpcNetwork
peer = record { target_id = codes "b"; target_addr = codes "h:1" }

rpcs_reach_raft_example :
    (Client.append_entries terms (λ endpoint. Service.append_entries terms) peer 3 (some 2)
      ≡ (ok 3, some 3))
    × (Client.vote terms (λ endpoint. Service.vote terms) peer 1 (some 2)
        ≡ direct follow 1 (some 2))
    × (Client.install_snapshot terms (λ endpoint. Service.install_snapshot terms) peer 4 (some 2)
        ≡ (ok 4, some 4))
rpcs_reach_raft_example =
    rpcs_reach_raft terms number_json-Writes number_json-Writes number_json-Writes
      number_json-Writes number_json-Writes number_json-Writes peer (some 2) 3 1 4
