-- ===== src/Cluster/Discovery/Merging.antt =====
-- What the lists of peers in agent/src/discovery/mod.rs change.
use all4one.Prelude.{
  ℕ, ◌≡◌, ◌≢◌, refl, ◌∙◌, false, Option, none, some, List, [], ◌∷◌, ◌++◌, Text, Map, get, insert,
  get-insert, get-insert_self, nat_eq, nat_beq, nat_beq_iff, beq_refl, ◌==◌, Bool-cases,
  Option-cases, inl, inr, arith, if◌then◌else◌,
}
use all4one.Common.{NodeId, NodeInfo, online}
use all4one.Cluster.Discovery.{
  PeerInfo, Shared, new_peer, known_peer, merge_node, merge_loop, merge_peers,
}

abbrev pub merged : NodeId → PeerInfo → Option NodeInfo → NodeInfo
merged id peer none = new_peer id peer
merged id peer (some n) = known_peer peer n

pub get-merge_node :
    (id j : NodeId) (peer : PeerInfo) (nodes : Map NodeId NodeInfo)
    → get j (merge_node id peer nodes)
      ≡ (if id == j then some (merged id peer (get id nodes)) else get j nodes)
unfolding merge_node
get-merge_node id j peer nodes = elim (Option-cases (get id nodes)) [
  | inl unknown ↦ rw (merge_node, unknown) (get-insert id j (new_peer id peer) nodes)
  | inr (n, known) ↦ rw (merge_node, known) (get-insert id j (known_peer peer n) nodes)
]

-- What an entry does to one node and to the time when it was last seen, where it is not the node itself.
module _ (parse_str : Text → Option NodeId) (self_id : NodeId) (now : ℕ) where
  -- A property of a node and of the time when it was last seen that no entry of a list breaks holds
  -- after the whole list.
  pub loop_keeps :
      (P : Map NodeId NodeInfo → Map NodeId ℕ → Type 0)
      → ((id : NodeId) (peer : PeerInfo) (nodes : Map NodeId NodeInfo) (seen : Map NodeId ℕ)
          → nat_beq id self_id ≡ false
          → P nodes seen
          → P (merge_node id peer nodes) (insert id now seen))
      → (peers : List PeerInfo) (nodes : Map NodeId NodeInfo) (seen : Map NodeId ℕ) → P nodes seen
      → let after = merge_loop parse_str self_id now peers (nodes, seen) in P after.0 after.1
  unfolding merge_loop
  loop_keeps P keeps [] nodes seen h = h
  loop_keeps P keeps (peer ∷ peers) nodes seen h = elim (Option-cases (parse_str peer.id)) [
    | inl bad ↦ rw (merge_loop, bad) (loop_keeps P keeps peers nodes seen h)
    | inr (id, good) ↦ elim (Bool-cases (nat_beq id self_id)) [
      | inl own ↦ rw (merge_loop, good, own) (loop_keeps P keeps peers nodes seen h)
      | inr other ↦
          rw (merge_loop, good, other)
            (loop_keeps P keeps peers (merge_node id peer nodes) (insert id now seen)
              (keeps id peer nodes seen other h))
    ]
  ]

  -- A list of peers changes nothing about the node itself.
  pub merge_peers_self :
      (peers : List PeerInfo) (s : Shared)
      → let after = merge_peers parse_str self_id now peers s in
        (get self_id after.cluster.nodes ≡ get self_id s.cluster.nodes)
        × (get self_id after.last_seen ≡ get self_id s.last_seen)
  unfolding merge_peers
  merge_peers_self peers s =
      loop_keeps
        (λ nodes seen.
          (get self_id nodes ≡ get self_id s.cluster.nodes)
          × (get self_id seen ≡ get self_id s.last_seen))
        (λ id peer nodes seen other h. (
          get-merge_node id self_id peer nodes ∙ rw other h.0,
          get-insert id self_id now seen ∙ rw other h.1,
        ))
        peers s.cluster.nodes s.last_seen (refl, refl)

  -- A node that is known stays known whatever a list of peers says, with its profile and its version.
  pub merge_peers_known :
      (peers : List PeerInfo) (s : Shared) (j : NodeId) (n : NodeInfo)
      → get j s.cluster.nodes ≡ some n
      → (n' : NodeInfo) × (get j (merge_peers parse_str self_id now peers s).cluster.nodes
          ≡ some n')
        × (n'.profile ≡ n.profile)
        × (n'.version ≡ n.version)
  unfolding merge_peers
  merge_peers_known peers s j n known =
      loop_keeps
        (λ nodes seen.
          (n' : NodeInfo) × (get j nodes ≡ some n')
          × (n'.profile ≡ n.profile)
          × (n'.version ≡ n.version))
        (λ id peer nodes seen other h. still id peer nodes h) peers s.cluster.nodes s.last_seen
        (n, known, refl, refl)
    where
      still :
          (id : NodeId) (peer : PeerInfo) (nodes : Map NodeId NodeInfo)
          → (n' : NodeInfo) × (get j nodes ≡ some n')
            × (n'.profile ≡ n.profile)
            × (n'.version ≡ n.version)
          → (n' : NodeInfo) × (get j (merge_node id peer nodes) ≡ some n')
            × (n'.profile ≡ n.profile)
            × (n'.version ≡ n.version)
      still id peer nodes (n', here, same, version) = elim (Bool-cases (nat_beq id j)) [
        | inl own ↦
            let e : get id nodes ≡ some n' = rw ((nat_beq_iff id j).0 own) here in
            (known_peer peer n', get-merge_node id j peer nodes ∙ rw (own, e) refl, same, version)
        | inr other ↦ (n', get-merge_node id j peer nodes ∙ rw other here, same, version)
      ]

  -- A peer that was just merged is online and seen now, and stays so.
  Fresh : NodeId → Map NodeId NodeInfo → Map NodeId ℕ → Type 0
  Fresh id nodes seen =
      (n : NodeInfo) × (get id nodes ≡ some n) × (n.status ≡ online) × (get id seen ≡ some now)

  merged-online :
      (id : NodeId) (peer : PeerInfo) (o : Option NodeInfo) → (merged id peer o).status ≡ online
  unfolding new_peer
  merged-online id peer none = refl
  merged-online id peer (some n) = refl

  Fresh-merge :
      (id j : NodeId) (peer : PeerInfo) (nodes : Map NodeId NodeInfo) (seen : Map NodeId ℕ)
      → Fresh j nodes seen
      → Fresh j (merge_node id peer nodes) (insert id now seen)
  unfolding Fresh
  Fresh-merge id j peer nodes seen (n, here, up, at) = elim (Bool-cases (nat_beq id j)) [
    | inl own ↦ (
      merged id peer (get id nodes),
      get-merge_node id j peer nodes ∙ rw own refl,
      merged-online id peer (get id nodes),
      get-insert id j now seen ∙ rw own refl,
    )
    | inr other ↦ (
      n,
      get-merge_node id j peer nodes ∙ rw other here,
      up,
      get-insert id j now seen ∙ rw other at,
    )
  ]

  named_loop :
      (before after : List PeerInfo) (peer : PeerInfo) (id : NodeId) (nodes : Map NodeId NodeInfo)
      (seen : Map NodeId ℕ)
      → parse_str peer.id ≡ some id
      → id ≢ self_id
      → let s' = merge_loop parse_str self_id now (before ++ peer ∷ after) (nodes, seen) in
        Fresh id s'.0 s'.1
  unfolding merge_loop Fresh
  named_loop [] after peer id nodes seen good other =
      let foreign : nat_beq id self_id ≡ false = ground (arith, nat_beq_iff id self_id) in
      rw (merge_loop, good, foreign)
        (loop_keeps (Fresh id) (λ i p ns se o h. Fresh-merge i id p ns se h) after
          (merge_node id peer nodes) (insert id now seen)
          (
            merged id peer (get id nodes),
            get-merge_node id id peer nodes ∙ rw (beq_refl id) refl,
            merged-online id peer (get id nodes),
            get-insert_self id now seen,
          ))
  named_loop (p ∷ before) after peer id nodes seen good other =
      elim (Option-cases (parse_str p.id)) [
        | inl bad ↦ rw (merge_loop, bad) (named_loop before after peer id nodes seen good other)
        | inr (j, read) ↦ elim (Bool-cases (nat_beq j self_id)) [
          | inl own ↦
              rw (merge_loop, read, own) (named_loop before after peer id nodes seen good other)
          | inr foreign ↦
              rw (merge_loop, read, foreign)
                (named_loop before after peer id (merge_node j p nodes) (insert j now seen) good
                  other)
        ]
      ]

  -- Each peer of a list whose id can be read and is not the node's own is known after the list, as
  -- online and as seen now, whatever stands before and after it.
  merge_peers_named :
      (before after : List PeerInfo) (peer : PeerInfo) (id : NodeId) (s : Shared)
      → parse_str peer.id ≡ some id
      → id ≢ self_id
      → let s' = merge_peers parse_str self_id now (before ++ peer ∷ after) s in
        (n : NodeInfo) × (get id s'.cluster.nodes ≡ some n)
        × (n.status ≡ online)
        × (get id s'.last_seen ≡ some now)
  unfolding merge_peers Fresh
  merge_peers_named before after peer id s good other =
      named_loop before after peer id s.cluster.nodes s.last_seen good other
