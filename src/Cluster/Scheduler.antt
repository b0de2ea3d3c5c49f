-- ===== src/Cluster/Scheduler.antt =====
-- agent/src/scheduler/mod.rs: the choice of a node for a job.
pub mod Sorting
pub mod Eligibility
pub mod Choice
use all4one.Prelude.{
  ℕ, Bool, true, false, not, ◌&&◌, Option, none, some, List, [], ◌∷◌, Text, leb, keep, values,
  lex_lt, nat_eq, if◌then◌else◌,
}
use all4one.Common.{
  NodeId, NodeInfo, NodeStatus, online, suspected, offline, ClusterState, Runtime, docker, python,
  jar, executable, wasm,
}

pub record SchedulingRequest : Type 0 where
  pub runtime : Runtime
  pub tier_min : ℕ
  pub require_docker : Bool

abbrev pub is_some {ℓ} : {A : Type ℓ} → Option A → Bool
is_some none = false
is_some (some a) = true

abbrev pub is_online : NodeStatus → Bool
is_online online = true
is_online suspected = false
is_online offline = false

unfoldable pub runtime_supported : NodeInfo → SchedulingRequest → Bool
runtime_supported node req =
    if req.require_docker && not node.profile.capabilities.has_docker
    then false
    else elim req.runtime [
      | docker ↦ node.profile.capabilities.has_docker
      | python ↦ is_some node.profile.capabilities.has_python
      | jar ↦ is_some node.profile.capabilities.java
      | wasm ↦ node.profile.capabilities.has_wasm
      | executable ↦ true
    ]

-- The two filters of `pick_node`.
abbrev pub is_candidate : SchedulingRequest → NodeInfo → Bool
is_candidate req n = is_online n.status && leb req.tier_min n.profile.tier

-- The loop over the sorted candidates.
unfoldable pub first_supported : SchedulingRequest → List NodeInfo → Option NodeId
first_supported req [] = none
first_supported req (n ∷ nodes) =
    let rest = first_supported req nodes in
    if not (runtime_supported n req) then rest else some n.profile.id

-- `to_string` of a node's id is the uuid library's.
module _ (to_string : NodeId → Text) where
  abbrev pub sort_key : NodeInfo → Text
  sort_key n = to_string n.profile.id

  -- `sort_by_key`, which keeps the order of equal keys.
  unfoldable pub insert_by_key : NodeInfo → List NodeInfo → List NodeInfo
  insert_by_key n [] = n ∷ []
  insert_by_key n (m ∷ nodes) =
      let rest = insert_by_key n nodes in
      if lex_lt (sort_key m) (sort_key n) then m ∷ rest else n ∷ m ∷ nodes

  unfoldable pub sort_by_key : List NodeInfo → List NodeInfo
  sort_by_key [] = []
  sort_by_key (n ∷ nodes) = insert_by_key n (sort_by_key nodes)

  -- With no candidates the loop finds none, so the early return needs no case.
  unfoldable pub pick_node : NodeInfo → ClusterState → SchedulingRequest → Option NodeId
  pick_node local cluster req =
      let candidates = keep (is_candidate req) (values cluster.nodes) in
      elim candidates [ [] ↦ none | n ∷ nodes ↦ first_supported req (sort_by_key (n ∷ nodes)) ]
