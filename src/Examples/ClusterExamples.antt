-- ===== src/Examples/ClusterExamples.antt =====
-- The properties of agent/src/scheduler, agent/src/gossip and agent/src/discovery at two nodes.
use all4one.Prelude.{refl, false, Option, none, some, [], ◌∷◌, Text, codes, values, nat_eq, list_eq}
use all4one.Common.{NodeId, NodeInfo, ClusterState, executable}
use all4one.Cluster.Scheduler.{SchedulingRequest, pick_node}
use all4one.Cluster.Scheduler.Choice.{IsLeast, pick_node_lem}
use all4one.Cluster.Scheduler.Eligibility.{fits}
use all4one.Cluster.Failures.{detect_round}
use all4one.Cluster.Discovery.{PeerInfo, Shared, new_peer, merge_peers, upsert_peer, upsert_self}
use all4one.Cluster.Discovery.Keys.{Keyed, operations_keep_Keyed}

-- An id's text is the id itself, one letter.
abbrev id_text : NodeId → Text
id_text i = i ∷ []

abbrev parse_id : Text → Option NodeId
parse_id (i ∷ []) = some i
parse_id _ = none

abbrev entry : NodeId → Text → PeerInfo
entry i rest = record { id = i ∷ []; tier = 1; grpc_endpoint = rest; rest_endpoint = rest }

abbrev node : NodeId → NodeInfo
node i = new_peer i (entry i (codes "h:1"))

abbrev cluster : ClusterState
cluster = record { nodes = (1, node 1) ∷ (2, node 2) ∷ []; version = 0 }

abbrev swapped : ClusterState
swapped = record { nodes = (2, node 2) ∷ (1, node 1) ∷ []; version = 4 }

abbrev shared : Shared
shared = record { cluster = cluster; last_seen = (2, 1000) ∷ [] }

abbrev request : SchedulingRequest
request = record { runtime = executable; tier_min = 0; require_docker = false }

pick_node_lem_example :
    IsLeast id_text
      (fits request)
      (values cluster.nodes)
      (pick_node id_text (node 1) cluster request)
pick_node_lem_example = pick_node_lem id_text (node 1) cluster request

operations_keep_Keyed_example :
    Keyed (merge_peers parse_id 1 9 (entry 3 (codes "c:1") ∷ []) shared).cluster.nodes
    × Keyed (upsert_peer 9 (node 3) shared).cluster.nodes
    × Keyed (upsert_self (node 3) cluster).nodes
    × Keyed (detect_round 1 9 shared.last_seen cluster).nodes
unfolding new_peer
operations_keep_Keyed_example =
    operations_keep_Keyed parse_id 1 9 (entry 3 (codes "c:1") ∷ []) (node 3) shared
      (refl, (refl, tt))
