-- ===== src/Grpc/Join/Admission.antt =====
-- agent/src/grpc_server/mod.rs: whom `join` admits.
use all4one.Prelude.{
  ℕ, ◌≡◌, refl, sym, ◌∙◌, ap, true, ◌||◌, ◌&&◌, Option, none, some, List, Text, Bytes, codes, get,
  get-insert_self, trim, is_empty, Result, ok, err, panic, nat_eq, list_eq, ◌==◌, inl, inr,
  Bool-cases, Option-cases, arith,
}
use all4one.Common.{NodeId, Uuid, NodeInfo, online}
use all4one.Cluster.Discovery.{Shared}
use all4one.Cluster.Discovery.Keys.{Keyed, Keyed-insert}
use all4one.Storage.Chunks.{Files}
use all4one.Certificates.{has_ca_key}
use all4one.Grpc.Messages.{JoinMessage}
use all4one.Grpc.Server.{Status}
use all4one.Grpc.Join.{
  Security, JoinReply, Issuer, joining_node, admit, check_secret, enroll, finish_join, join,
}

-- The node is known, online, under its own id, and was just seen.
abbrev pub Admitted : (now : ℕ) → NodeInfo → Shared → Type 0
Admitted now node s =
    (get node.profile.id s.cluster.nodes ≡ some node)
    × (node.status ≡ online)
    × (get node.profile.id s.last_seen ≡ some now)

admit-Admitted :
    (version : Text) (now : ℕ) (id : NodeId) (m : JoinMessage) (s : Shared)
    → Admitted now (joining_node version id m) (admit now (joining_node version id m) s)
unfolding admit
admit-Admitted version now id m s = (
  get-insert_self id (joining_node version id m) s.cluster.nodes,
  refl,
  get-insert_self id now s.last_seen,
)

-- A secret that is given passes only in the mode of the shared secret, and only if it is the one of
-- the configuration.
abbrev pub SecretFits : Security → Text → Type 0
SecretFits security provided =
    (is_empty provided
      || (security.mode == codes "shared-secret" && provided == trim security.shared_secret))
    ≡ true

check_secret_lem :
    (security : Security) (provided : Text)
    → check_secret security provided ≡ none
    → SecretFits security provided
unfolding check_secret
check_secret_lem security provided passed = ground (arith, passed)

module _ (to_string : Uuid → Text) (parse_str : Text → Option Uuid)
    (self_signed : List Text → Option (Bytes × Bytes)) (version : Text) (now unix_time : ℕ) where
  finish_join_lem :
      (id : NodeId) (m : JoinMessage) (s s' : Issuer) (reply : JoinReply)
      (made : Result Status JoinReply × Files)
      → finish_join to_string parse_str self_signed version now id m s made ≡ (ok reply, s')
      → s'.shared ≡ admit now (joining_node version id m) s.shared
  finish_join_lem id m s s' reply (ok r, files) e =
      ap (λ (p : Result Status JoinReply × Issuer). p.1.shared) (sym e)
  finish_join_lem id m s s' reply (err x, files) e = absurd (ground (arith, e))
  finish_join_lem id m s s' reply (panic, files) e = absurd (ground (arith, e))

  finish_join_refused :
      (id : NodeId) (m : JoinMessage) (s : Issuer) (e : Status)
      (made : Result Status JoinReply × Files)
      → (finish_join to_string parse_str self_signed version now id m s made).0 ≡ err e
      → (finish_join to_string parse_str self_signed version now id m s made).1.shared ≡ s.shared
  finish_join_refused id m s e (ok r, files) h = absurd (ground (arith, h))
  finish_join_refused id m s e (err x, files) h = refl
  finish_join_refused id m s e (panic, files) h = refl

  -- Past the checks, what is left is to make the certificates and to record the node.
  join_passed :
      (security : Security) (m : JoinMessage) (s : Issuer) (id : NodeId)
      → parse_str m.node_id ≡ some id
      → has_ca_key s.files ≡ true
      → check_secret security (trim m.join_secret) ≡ none
      → join to_string parse_str self_signed security version now unix_time m s
        ≡ finish_join to_string parse_str self_signed version now id m s
            (enroll to_string self_signed unix_time id s.files)
  unfolding join
  join_passed security m s id parsed issuer passed =
      rw (join, parsed) (rw (join, issuer) (rw (join, passed) refl))

  -- A node that is answered with a certificate asked an issuer, under an id that can be read, with a
  -- blank secret or else with the configured one in the mode of the shared secret, white space around
  -- either left aside. It is then known
  -- under its id, online and just seen, so that each node stays known under its own id.
  pub join_lem :
      (security : Security) (m : JoinMessage) (s s' : Issuer) (reply : JoinReply)
      → join to_string parse_str self_signed security version now unix_time m s ≡ (ok reply, s')
      → Keyed s.shared.cluster.nodes
      → (id : NodeId) × (parse_str m.node_id ≡ some id)
        × (has_ca_key s.files ≡ true)
        × SecretFits security (trim m.join_secret)
        × Admitted now (joining_node version id m) s'.shared
        × Keyed s'.shared.cluster.nodes
  unfolding join admit
  join_lem security m s s' reply e keyed = elim (Option-cases (parse_str m.node_id)) [
    | inl unread ↦ absurd (ground (arith, unread, e))
    | inr (id, parsed) ↦ elim (Bool-cases (has_ca_key s.files)) [
      | inr no_key ↦ absurd (ground (arith, parsed, no_key, e))
      | inl issuer ↦ elim (Option-cases (check_secret security (trim m.join_secret))) [
        | inr (refused, r) ↦ absurd (ground (arith, parsed, issuer, r, e))
        | inl passed ↦
            let node = joining_node version id m in
            let done : s'.shared ≡ admit now node s.shared =
              finish_join_lem id m s s' reply (enroll to_string self_signed unix_time id s.files)
                (sym (join_passed security m s id parsed issuer passed) ∙ e) in
            (
              id,
              parsed,
              issuer,
              check_secret_lem security (trim m.join_secret) passed,
              rw done (admit-Admitted version now id m s.shared),
              rw done (Keyed-insert id node s.shared.cluster.nodes refl keyed),
            )
      ]
    ]
  ]

  -- A join that fails leaves the cluster as it was, and when each node was last seen.
  pub join_refused :
      (security : Security) (m : JoinMessage) (s : Issuer) (e : Status)
      → (join to_string parse_str self_signed security version now unix_time m s).0 ≡ err e
      → (join to_string parse_str self_signed security version now unix_time m s).1.shared
        ≡ s.shared
  unfolding join
  join_refused security m s e h = elim (Option-cases (parse_str m.node_id)) [
    | inl unread ↦ rw (join, unread) refl
    | inr (id, parsed) ↦ elim (Bool-cases (has_ca_key s.files)) [
      | inr no_key ↦ rw (join, parsed) (rw (join, no_key) refl)
      | inl issuer ↦ elim (Option-cases (check_secret security (trim m.join_secret))) [
        | inr (refused, r) ↦ rw (join, parsed) (rw (join, issuer) (rw (join, r) refl))
        | inl passed ↦
            let opened = join_passed security m s id parsed issuer passed in
            rw opened (
              finish_join_refused id m s e (enroll to_string self_signed unix_time id s.files)
                (ap (λ (p : Result Status JoinReply × Issuer). p.0) (sym opened) ∙ h))
      ]
    ]
  ]

  -- A node that gives no secret is treated alike under any configuration, also one with a shared secret.
  pub join_without_secret :
      (security other : Security) (m : JoinMessage) (s : Issuer)
      → is_empty (trim m.join_secret) ≡ true
      → join to_string parse_str self_signed security version now unix_time m s
        ≡ join to_string parse_str self_signed other version now unix_time m s
  unfolding join check_secret
  join_without_secret security other m s blank = ground (arith, blank)
