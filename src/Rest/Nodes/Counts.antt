-- ===== src/Rest/Nodes/Counts.antt =====
-- agent/src/api_rest/mod.rs: the counts of nodes that different handlers give.
use all4one.Prelude.{
  suc, ◌+◌, ◌≡◌, ◌∙◌, refl, sym, ap, Bool, true, false, Option, List, [], ◌∷◌, Text, Map, length,
  values, nat_eq, arith,
}
use all4one.Common.{NodeId, Uuid, NodeInfo, NodeStatus, online, suspected, offline, ClusterState}
use all4one.Cluster.Scheduler.{insert_by_key, sort_by_key}
use all4one.Rest.Nodes.{count, online_node, offline_node, RaftMetrics, get_nodes, cluster_info}

abbrev pub is_suspected : NodeStatus → Bool
is_suspected suspected = true
is_suspected online = false
is_suspected offline = false

abbrev pub suspected_node : NodeInfo → Bool
suspected_node n = is_suspected n.status

length-values : (nodes : Map NodeId NodeInfo) → length nodes ≡ length (values nodes)
unfolding values
length-values [] = refl
length-values (e ∷ nodes) = ap suc (length-values nodes)

-- Each node is online, offline or suspected.
status_counts :
    (nodes : List NodeInfo)
    → count online_node nodes + count offline_node nodes + count suspected_node nodes ≡ length nodes
unfolding count
status_counts [] = refl
status_counts (n ∷ nodes) = ground (arith, status_counts nodes)

module _ (to_string : Uuid → Text) where
  count-insert_by_key :
      (p : NodeInfo → Bool) (n : NodeInfo) (nodes : List NodeInfo)
      → count p (insert_by_key to_string n nodes) ≡ count p (n ∷ nodes)
  unfolding count insert_by_key
  count-insert_by_key p n [] = refl
  count-insert_by_key p n (m ∷ nodes) = ground (arith, count-insert_by_key p n nodes)

  count-sort_by_key :
      (p : NodeInfo → Bool) (nodes : List NodeInfo)
      → count p (sort_by_key to_string nodes) ≡ count p nodes
  unfolding count sort_by_key
  count-sort_by_key p [] = refl
  count-sort_by_key p (n ∷ nodes) =
      count-insert_by_key p n (sort_by_key to_string nodes)
      ∙ ground (arith, count-sort_by_key p nodes)

  -- The list of the nodes and the diagnostics count the same nodes as online; what the diagnostics call
  -- offline are the offline nodes of the list and the suspected ones.
  pub nodes-diagnostics :
      (participant : Bool) (raft : Option RaftMetrics) (st : ClusterState)
      → let listed = get_nodes to_string st in
        let info = cluster_info participant raft st in
        (info.online_nodes ≡ listed.online_count)
        × (info.offline_nodes ≡ listed.offline_count + count suspected_node (values st.nodes))
  unfolding get_nodes cluster_info
  nodes-diagnostics participant raft st =
      let nodes = values st.nodes in
      (
        sym (count-sort_by_key online_node nodes),
        omega (
          arith,
          count-sort_by_key offline_node nodes,
          status_counts nodes,
          length-values st.nodes,
        ),
      )
