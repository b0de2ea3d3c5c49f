-- ===== src/Cluster/Discovery.antt =====
-- agent/src/discovery/mod.rs: what a node learns of other nodes, from lists of peers and from seeds.
-- The requests to the seeds and to the known nodes are left out: their answers are arguments.
pub mod Merging
pub mod Keys
use all4one.Prelude.{
  ℕ, zero, suc, ◌+◌, ◌*◌, ◌-◌, ◌^◌, Bool, true, false, ◌&&◌, Option, none, some, List, [], ◌∷◌,
  ◌++◌, Text, Map, get, insert, decimal, ltb, leb, nat_eq, ◌==◌, if◌then◌else◌,
}
use all4one.Common.{
  NodeId, NodeInfo, NodeStatus, online, NodeProfile, NodeResources, NodeCapabilities, ClusterState,
}
use all4one.Cluster.Failures.{next_version}

-- An answer's entry.
pub record PeerInfo : Type 0 where
  pub id : Text
  pub tier : ℕ
  pub grpc_endpoint : Text
  pub rest_endpoint : Text

-- The state that the tasks share: the cluster, and when each node was last seen.
pub record Shared : Type 0 where
  pub cluster : ClusterState
  pub last_seen : Map NodeId ℕ

-- What is known of a peer from an entry only.
unfoldable pub new_peer : NodeId → PeerInfo → NodeInfo
new_peer id peer = record {
  profile = record {
    id = id;
    tier = peer.tier;
    availability = [];
    quorum_participant = false;
    resources = record { cpu_cores = 0; memory_mb = 0; disk_mb = none };
    capabilities = record {
      has_docker = false;
      has_python = none;
      java = none;
      has_wasm = false;
      gpu_enabled = false;
      storage_node = false;
    };
  };
  status = online;
  version = [];
  grpc_endpoint = peer.grpc_endpoint;
  rest_endpoint = peer.rest_endpoint;
}

abbrev pub known_peer : PeerInfo → NodeInfo → NodeInfo
known_peer peer n = record n {
  grpc_endpoint = peer.grpc_endpoint;
  rest_endpoint = peer.rest_endpoint;
  status = online;
}

-- `entry(id).and_modify(..).or_insert_with(..)`.
unfoldable pub merge_node : NodeId → PeerInfo → Map NodeId NodeInfo → Map NodeId NodeInfo
merge_node id peer nodes = elim (get id nodes) [
  | none ↦ insert id (new_peer id peer) nodes
  | some n ↦ insert id (known_peer peer n) nodes
]

-- `Uuid::parse_str` is the uuid library's.
module _ (parse_str : Text → Option NodeId) where
  -- The loop `for peer in body.peers`.
  unfoldable pub merge_loop :
      NodeId
      → (now : ℕ) → List PeerInfo
      → Map NodeId NodeInfo × Map NodeId ℕ
      → Map NodeId NodeInfo × Map NodeId ℕ
  merge_loop self_id now [] s = s
  merge_loop self_id now (peer ∷ peers) (nodes, seen) = elim (parse_str peer.id) [
    | none ↦ merge_loop self_id now peers (nodes, seen)
    | some id ↦ elim (id == self_id) [
      | true ↦ merge_loop self_id now peers (nodes, seen)
      | false ↦ merge_loop self_id now peers (merge_node id peer nodes, insert id now seen)
    ]
  ]

  -- The update of both phases of `spawn_seed_discovery`, with both locks held.
  unfoldable pub merge_peers : NodeId → (now : ℕ) → List PeerInfo → Shared → Shared
  merge_peers self_id now peers s =
      let (nodes, seen) = merge_loop self_id now peers (s.cluster.nodes, s.last_seen) in
      record {
        cluster = record { nodes = nodes; version = next_version s.cluster.version };
        last_seen = seen;
      }

-- The requests of the second phase: the nodes but the node itself, with their addresses.
pub known_nodes : NodeId → Map NodeId NodeInfo → List (NodeId × Text)
known_nodes self_id [] = []
known_nodes self_id ((id, info) ∷ nodes) =
    let rest = known_nodes self_id nodes in
    if id == self_id then rest else (id, info.rest_endpoint) ∷ rest

unfoldable pub upsert_peer : (now : ℕ) → NodeInfo → Shared → Shared
upsert_peer now node s =
    let id = node.profile.id in
    record {
      cluster = record {
        nodes = insert id (record node { status = online }) s.cluster.nodes;
        version = next_version s.cluster.version;
      };
      last_seen = insert id now s.last_seen;
    }

unfoldable pub upsert_self : NodeInfo → ClusterState → ClusterState
upsert_self local st = record {
  nodes = insert local.profile.id local st.nodes;
  version = next_version st.version;
}

pub mark_self_heartbeat : NodeId → (now : ℕ) → Map NodeId ℕ → Map NodeId ℕ
mark_self_heartbeat node_id now seen = insert node_id now seen

-- `rsplit_once(':')`: what is before and after the last colon.
pub rsplit_colon : Text → Option (Text × Text)
rsplit_colon [] = none
rsplit_colon (c ∷ t) = elim (rsplit_colon t) [
  | some p ↦ some (c ∷ p.0, p.1)
  | none ↦ if c == b':' then some ([], t) else none
]

-- The digits of a number from the left, where `acc` is the number before them.
unfoldable pub parse_digits : ℕ → Text → Option ℕ
parse_digits acc [] = some acc
parse_digits acc (c ∷ t) =
    if leb b'0' c && leb c b'9' then parse_digits (acc * 10 + (c - b'0')) t else none

abbrev pub drop_plus : Text → Text
drop_plus [] = []
drop_plus (c ∷ t) = if c == b'+' then t else c ∷ t

abbrev below_u16 : Option ℕ → Option ℕ
below_u16 none = none
below_u16 (some n) = if ltb n (2 ^ 16) then some n else none

-- `parse::<u16>()`: digits, at least one, after a plus sign or none, and in the bounds of 16 bits.
pub parse_u16 : Text → Option ℕ
unfolding parse_digits
parse_u16 t = elim (drop_plus t) [ [] ↦ none | c ∷ ds ↦ below_u16 (parse_digits 0 (c ∷ ds)) ]

pub seed_to_rest : Text → Text
seed_to_rest seed = elim (rsplit_colon seed) [
  | none ↦ seed
  | some p ↦ elim (parse_u16 p.1) [
    | none ↦ seed
    | some port ↦ if ltb 0 port then p.0 ++ (b':' ∷ decimal (port - 1)) else seed
  ]
]
