-- ===== src/Rest/Nodes.antt =====
-- agent/src/api_rest/mod.rs: what a client is told of the nodes: `get_nodes`, `get_node`,
-- `get_internal_nodes`, `health`, `metrics`, `cluster_status` and the counts of `cluster_diagnostics`.
pub mod Counts
use all4one.Prelude.{
  ℕ, ◌+◌, ◌-◌, ◌++◌, Bool, true, false, not, Option, none, some, List, [], ◌∷◌, Text, Map, codes,
  decimal, length, keep, map, values, get, lex_lt, nat_eq, if◌then◌else◌,
}
use mathlib.Core.Option
use all4one.Common.{NodeId, Uuid, NodeInfo, NodeStatus, online, suspected, offline, ClusterState}
use all4one.Cluster.Scheduler.{is_online, is_some, sort_by_key}
use all4one.Jobs.Records.{Jobs}

abbrev pub is_offline : NodeStatus → Bool
is_offline offline = true
is_offline online = false
is_offline suspected = false

unfoldable pub count : (NodeInfo → Bool) → List NodeInfo → ℕ
count p nodes = length (keep p nodes)

abbrev pub online_node : NodeInfo → Bool
online_node n = is_online n.status

abbrev pub offline_node : NodeInfo → Bool
offline_node n = is_offline n.status

pub record NodesResponse : Type 0 where
  pub nodes : List NodeInfo
  pub total : ℕ
  pub online_count : ℕ
  pub offline_count : ℕ

-- An entry of the list for nodes that join.
pub record Peer : Type 0 where
  pub id : Text
  pub tier : ℕ
  pub grpc_endpoint : Text
  pub rest_endpoint : Text
  pub status : NodeStatus

pub data FoundNode : Type 0 where
  bad_request not_found : FoundNode
  found : NodeInfo → FoundNode

unfoldable pub get_node : Option NodeId → ClusterState → FoundNode
get_node none st = bad_request
get_node (some id) st = elim (get id st.nodes) [ none ↦ not_found | some node ↦ found node ]

-- The consensus metrics that the openraft library gives.
pub record RaftMetrics : Type 0 where
  pub current_leader : Option ℕ
  pub current_term : ℕ
  pub last_log_index : Option ℕ

pub record ClusterStatus : Type 0 where
  pub node_id : Text
  pub quorum_participant : Bool
  pub raft_leader : Option Text
  pub quorum_healthy : Bool
  pub raft_term : ℕ
  pub last_log_index : Option ℕ

pub record HealthResponse : Type 0 where
  pub status : Text
  pub node_id : Text
  pub uptime_seconds : ℕ
  pub cluster_connected : Bool
  pub quorum_healthy : Bool

abbrev pub is_connected : Map NodeId NodeInfo → Bool
is_connected [] = false
is_connected (e ∷ nodes) = true

module _ (to_string : Uuid → Text) where
  unfoldable pub get_nodes : ClusterState → NodesResponse
  get_nodes st =
      let nodes = sort_by_key to_string (values st.nodes) in
      record {
        nodes = nodes;
        total = length nodes;
        online_count = count online_node nodes;
        offline_count = count offline_node nodes;
      }

  abbrev pub peer_of : NodeInfo → Peer
  peer_of n = record {
    id = to_string n.profile.id;
    tier = n.profile.tier;
    grpc_endpoint = n.grpc_endpoint;
    rest_endpoint = n.rest_endpoint;
    status = n.status;
  }

  -- Sorting by the texts of the ids is the same before and after the entries are made.
  unfoldable pub get_internal_nodes : ClusterState → List Peer
  get_internal_nodes st = map peer_of (sort_by_key to_string (values st.nodes))

  unfoldable pub health :
      (uptime : ℕ) → NodeId → (quorum_participant : Bool) → ClusterState → HealthResponse
  health uptime self participant st = record {
    status = codes "ok";
    node_id = to_string self;
    uptime_seconds = uptime;
    cluster_connected = is_connected st.nodes;
    quorum_healthy = participant;
  }

  -- `leader_text` is the text of a member's number.
  unfoldable pub cluster_status :
      (leader_text : ℕ → Text)
      → NodeId
      → (quorum_participant : Bool) → Option RaftMetrics
      → ClusterStatus
  cluster_status leader_text self participant none = record {
    node_id = to_string self;
    quorum_participant = participant;
    raft_leader = none;
    quorum_healthy = false;
    raft_term = 0;
    last_log_index = none;
  }
  cluster_status leader_text self participant (some m) = record {
    node_id = to_string self;
    quorum_participant = participant;
    raft_leader = Option.map leader_text m.current_leader;
    quorum_healthy = is_some m.current_leader;
    raft_term = m.current_term;
    last_log_index = m.last_log_index;
  }

unfoldable pub metrics : (uptime : ℕ) → ClusterState → Jobs → Text
metrics uptime st jobs =
    codes "all4one_uptime_seconds "
    ++ (decimal uptime
        ++ (codes "\nall4one_nodes_online "
            ++ (decimal (count online_node (values st.nodes))
                ++ (codes "\nall4one_jobs_total " ++ (decimal (length jobs) ++ codes "\n")))))

-- `ClusterInfo` of the diagnostics, where every node that is not online counts as offline.
pub record ClusterInfo : Type 0 where
  pub total_nodes : ℕ
  pub online_nodes : ℕ
  pub offline_nodes : ℕ
  pub quorum_participant : Bool
  pub quorum_healthy : Bool

unfoldable pub cluster_info :
    (quorum_participant : Bool) → Option RaftMetrics → ClusterState → ClusterInfo
cluster_info participant raft st =
    let n = count online_node (values st.nodes) in
    record {
      total_nodes = length st.nodes;
      online_nodes = n;
      offline_nodes = length st.nodes - n;
      quorum_participant = participant;
      quorum_healthy = elim raft [ none ↦ false | some m ↦ is_some m.current_leader ];
    }
