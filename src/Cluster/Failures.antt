-- ===== src/Cluster/Failures.antt =====
-- agent/src/gossip/mod.rs: one round of the failure detector. Instants are milliseconds.
pub mod Status
use all4one.Prelude.{
  ℕ, suc, ◌+◌, ◌-◌, ◌^◌, Bool, true, false, Option, none, some, List, [], ◌∷◌, Map, get, leb, min,
  nat_eq, ◌==◌, if◌then◌else◌,
}
use all4one.Common.{NodeId, NodeInfo, NodeStatus, online, suspected, offline, ClusterState}

-- `version.saturating_add(1)` on 64 bits.
unfoldable pub next_version : ℕ → ℕ
next_version v = min (v + 1) (2 ^ 64 - 1)

-- `now.saturating_duration_since(last)` against 100 and 35 seconds.
unfoldable pub status_of : (now : ℕ) → Option ℕ → NodeStatus
status_of now none = suspected
status_of now (some last) =
    let age = now - last in
    if leb 100000 age then offline else if leb 35000 age then suspected else online

abbrev pub set_status : NodeInfo → NodeStatus → NodeInfo
set_status node s = record node { status = s }

-- The loop over `&mut state.nodes`.
unfoldable pub detect_nodes : NodeId → ℕ → Map NodeId ℕ → Map NodeId NodeInfo → Map NodeId NodeInfo
detect_nodes self_id now seen [] = []
detect_nodes self_id now seen ((id, node) ∷ nodes) =
    (id, set_status node (if id == self_id then online else status_of now (get id seen)))
    ∷ detect_nodes self_id now seen nodes

unfoldable pub detect_round : NodeId → ℕ → Map NodeId ℕ → ClusterState → ClusterState
detect_round self_id now seen state = record {
  nodes = detect_nodes self_id now seen state.nodes;
  version = next_version state.version;
}
