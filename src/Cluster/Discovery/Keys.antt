-- ===== src/Cluster/Discovery/Keys.antt =====
-- The keys of the map of nodes, through agent/src/discovery/mod.rs and agent/src/gossip/mod.rs.
use all4one.Prelude.{
  ℕ, ◌≡◌, refl, sym, ap, ◌∙◌, Option, some, List, [], ◌∷◌, Text, Map, get, insert, nat_eq, nat_beq,
  nat_beq_iff, Bool-cases, Option-cases, inl, inr, arith,
}
use all4one.Common.{NodeId, NodeInfo, online}
use all4one.Cluster.Failures.{detect_nodes, detect_round}
use all4one.Cluster.Discovery.{
  PeerInfo, Shared, new_peer, known_peer, merge_node, merge_peers, upsert_peer, upsert_self,
}
use all4one.Cluster.Discovery.Merging.{loop_keeps}

-- Each node is known under its own id.
abbrev pub Keyed : Map NodeId NodeInfo → Type 0
Keyed [] = Unit
Keyed ((i, n) ∷ nodes) = (n.profile.id ≡ i) × Keyed nodes

pub Keyed-insert :
    (i : NodeId) (v : NodeInfo) (nodes : Map NodeId NodeInfo)
    → v.profile.id ≡ i
    → Keyed nodes
    → Keyed (insert i v nodes)
unfolding insert
Keyed-insert i v [] own keyed = (own, tt)
Keyed-insert i v ((j, n) ∷ nodes) own keyed =
    ground (arith, own, Keyed-insert i v nodes own keyed.1)

Keyed-get :
    (id : NodeId) (n : NodeInfo) (nodes : Map NodeId NodeInfo)
    → Keyed nodes
    → get id nodes ≡ some n
    → n.profile.id ≡ id
unfolding get
Keyed-get id n [] keyed found = absurd cc
Keyed-get id n ((j, m) ∷ nodes) keyed found = elim (Bool-cases (nat_beq j id)) [
  | inl same ↦
      let e : m ≡ n = ground (arith, same) in
      ap (λ (k : NodeInfo). k.profile.id) (sym e) ∙ keyed.0 ∙ (nat_beq_iff j id).0 same
  | inr other ↦ Keyed-get id n nodes keyed.1 (ground (arith, other))
]

Keyed-merge_node :
    (id : NodeId) (peer : PeerInfo) (nodes : Map NodeId NodeInfo)
    → Keyed nodes
    → Keyed (merge_node id peer nodes)
unfolding merge_node new_peer
Keyed-merge_node id peer nodes keyed = elim (Option-cases (get id nodes)) [
  | inl unknown ↦ rw (merge_node, unknown) (Keyed-insert id (new_peer id peer) nodes refl keyed)
  | inr (n, known) ↦
      rw (merge_node, known)
        (Keyed-insert id (known_peer peer n) nodes (Keyed-get id n nodes keyed known) keyed)
]

Keyed-detect_nodes :
    (self_id : NodeId) (now : ℕ) (seen : Map NodeId ℕ) (nodes : Map NodeId NodeInfo)
    → Keyed nodes
    → Keyed (detect_nodes self_id now seen nodes)
unfolding detect_nodes
Keyed-detect_nodes self_id now seen [] keyed = tt
Keyed-detect_nodes self_id now seen ((j, n) ∷ nodes) keyed =
    (keyed.0, Keyed-detect_nodes self_id now seen nodes keyed.1)

-- If each node is known under its own id, this is so after every operation on the map: a list of peers,
-- a peer's answer, the node's entry for itself, and a round of the failure detector.
pub operations_keep_Keyed :
    (parse_str : Text → Option NodeId) (self_id : NodeId) (now : ℕ) (peers : List PeerInfo)
    (node : NodeInfo) (s : Shared)
    → Keyed s.cluster.nodes
    → Keyed (merge_peers parse_str self_id now peers s).cluster.nodes
      × Keyed (upsert_peer now node s).cluster.nodes
      × Keyed (upsert_self node s.cluster).nodes
      × Keyed (detect_round self_id now s.last_seen s.cluster).nodes
unfolding merge_peers upsert_peer upsert_self detect_round
operations_keep_Keyed parse_str self_id now peers node s keyed =
    let nodes = s.cluster.nodes in
    (
      loop_keeps parse_str self_id now (λ ns seen. Keyed ns)
          (λ id peer ns seen other k. Keyed-merge_node id peer ns k) peers nodes s.last_seen keyed,
      Keyed-insert node.profile.id (record node { status = online }) nodes refl keyed,
      Keyed-insert node.profile.id node nodes refl keyed,
      Keyed-detect_nodes self_id now s.last_seen nodes keyed,
    )
