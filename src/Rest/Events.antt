-- ===== src/Rest/Events.antt =====
-- agent/src/api_rest/mod.rs: the events for operators. What the source sends to the broadcast channel
-- is a list here, in the order of sending.
use all4one.Prelude.{
  ℕ, Bool, true, false, Option, none, some, List, [], ◌∷◌, ◌++◌, Text, Map, codes, get, nat_eq,
  if◌then◌else◌,
}
use mathlib.Core.Option
use all4one.Common.{NodeId, JobId, Uuid, NodeInfo, NodeStatus, online, suspected, offline}
use all4one.Cluster.Scheduler.{is_online}

pub record OpsEvent : Type 0 where
  pub at : ℕ
  pub kind : Text
  pub level : Text
  pub message : Text
  pub node_id : Option Text
  pub job_id : Option Text

-- The names that `derive(Debug)` gives.
abbrev pub debug_node_status : NodeStatus → Text
debug_node_status online = codes "Online"
debug_node_status suspected = codes "Suspected"
debug_node_status offline = codes "Offline"

abbrev pub same_status : NodeStatus → NodeStatus → Bool
same_status online online = true
same_status suspected suspected = true
same_status offline offline = true
same_status online suspected = false
same_status online offline = false
same_status suspected online = false
same_status suspected offline = false
same_status offline online = false
same_status offline suspected = false

abbrev pub statuses : Map NodeId NodeInfo → Map NodeId NodeStatus
statuses [] = []
statuses ((id, info) ∷ nodes) = (id, info.status) ∷ statuses nodes

-- `to_string` of an id is the uuid library's.
module _ (to_string : Uuid → Text) where
  unfoldable pub publish_ops_event :
      (now : ℕ) (kind level message : Text) → Option NodeId → Option JobId → OpsEvent
  publish_ops_event now kind level message node job = record {
    at = now;
    kind = kind;
    level = level;
    message = message;
    node_id = Option.map to_string node;
    job_id = Option.map to_string job;
  }

  unfoldable pub status_changed : (now : ℕ) → NodeId → (prev status : NodeStatus) → OpsEvent
  unfolding publish_ops_event
  status_changed now id prev status =
      publish_ops_event now (codes "node.status_changed")
        (if is_online status then codes "info" else codes "warn")
        (codes "Node "
          ++ (to_string id
              ++ (codes " changed status "
                  ++ (debug_node_status prev ++ (codes " -> " ++ debug_node_status status)))))
        (some id) none

  unfoldable pub discovered : (now : ℕ) → NodeId → NodeStatus → OpsEvent
  unfolding publish_ops_event
  discovered now id status =
      publish_ops_event now (codes "node.discovered") (codes "info")
        (codes "Node "
          ++ (to_string id ++ (codes " discovered with status " ++ debug_node_status status)))
        (some id) none

  unfoldable pub removed : (now : ℕ) → NodeId → OpsEvent
  unfolding publish_ops_event
  removed now id =
      publish_ops_event now (codes "node.removed") (codes "warn")
        (codes "Node " ++ (to_string id ++ codes " removed from cluster view")) (some id) none

  -- The first loop of a round, over the statuses as they are now.
  unfoldable pub watch_current :
      (now : ℕ) → Map NodeId NodeStatus → Map NodeId NodeStatus → List OpsEvent
  watch_current now last [] = []
  watch_current now last ((id, status) ∷ current) =
      let rest = watch_current now last current in
      elim (get id last) [
        | none ↦ discovered now id status ∷ rest
        | some prev ↦
            if same_status prev status then rest else status_changed now id prev status ∷ rest
      ]

  -- The second loop, over the statuses of the round before.
  unfoldable pub watch_removed :
      (now : ℕ) → Map NodeId NodeStatus → Map NodeId NodeStatus → List OpsEvent
  watch_removed now current [] = []
  watch_removed now current ((id, status) ∷ last) =
      let rest = watch_removed now current last in
      elim (get id current) [ none ↦ removed now id ∷ rest | some s ↦ rest ]

  -- One round of `start_ops_watchers`: its events, and what it keeps for the next.
  unfoldable pub watch_round :
      (now : ℕ)
      → Map NodeId NodeStatus
      → Map NodeId NodeInfo
      → List OpsEvent × Map NodeId NodeStatus
  unfolding watch_current watch_removed
  watch_round now last nodes =
      let current = statuses nodes in
      (watch_current now last current ++ watch_removed now current last, current)
