-- ===== src/Grpc/Join.antt =====
-- agent/src/grpc_server/mod.rs: a node that asks to join the cluster, `join`.
pub mod Admission
use all4one.Prelude.{
  ℕ, ◌+◌, ◌*◌, ◌%◌, ◌^◌, Bool, true, false, not, ◌||◌, Option, none, some, List, [], ◌∷◌, Text,
  Bytes, Map, codes, insert, trim, is_empty, Result, ok, err, nat_eq, list_eq, ◌==◌, if◌then◌else◌,
}
use all4one.Common.{NodeId, Uuid, NodeInfo, online}
use all4one.Cluster.Failures.{next_version}
use all4one.Cluster.Discovery.{Shared}
use all4one.Storage.Chunks.{Files}
use all4one.Certificates.{has_ca_key, init_ca, generate_ca_cert, generate_node_cert, load_ca_pem}
use all4one.Grpc.Messages.{JoinMessage}
use all4one.Grpc.Server.{Status, invalid_argument, failed_precondition, unauthenticated, internal}

-- What `join` reads of the configuration.
pub record Security : Type 0 where
  pub mode : Text
  pub shared_secret : Text

-- `proto::JoinResponse`.
pub record JoinReply : Type 0 where
  pub node_cert_pem : Bytes
  pub node_key_pem : Bytes
  pub ca_cert_pem : Bytes
  pub expires_at_unix : ℕ

-- What is recorded of a node that joins: `version` is the agent's own.
abbrev pub joining_node : (version : Text) → NodeId → JoinMessage → NodeInfo
joining_node version id m = record {
  profile = record {
    id = id;
    tier = m.tier % 2 ^ 8;
    availability = [];
    quorum_participant = false;
    resources = record { cpu_cores = 0; memory_mb = 0; disk_mb = none };
    capabilities = record {
      has_docker = false;
      has_python = none;
      java = none;
      has_wasm = false;
      gpu_enabled = false;
      storage_node = false;
    };
  };
  status = online;
  version = version;
  grpc_endpoint = m.grpc_endpoint;
  rest_endpoint = m.rest_endpoint;
}

-- The two updates of the shared maps.
unfoldable pub admit : (now : ℕ) → NodeInfo → Shared → Shared
admit now node s = record {
  cluster = record {
    nodes = insert node.profile.id node s.cluster.nodes;
    version = next_version s.cluster.version;
  };
  last_seen = insert node.profile.id now s.last_seen;
}

-- The check of the secret, with the error where it fails.
unfoldable pub check_secret : Security → (provided : Text) → Option Status
check_secret security provided =
    if is_empty provided
    then none
    else if not (security.mode == codes "shared-secret")
    then some (unauthenticated (codes "join_secret enrollment is only allowed in dev mode"))
    else let configured = trim security.shared_secret in
      if is_empty configured || not (provided == configured)
      then some (unauthenticated (codes "invalid join_secret"))
      else none

-- The certificates that are made, and the files after it. `unix_time` is the time in seconds.
unfoldable pub enroll :
    (to_string : Uuid → Text) (self_signed : List Text → Option (Bytes × Bytes)) (unix_time : ℕ)
    → NodeId
    → Files
    → Result Status JoinReply × Files
enroll to_string self_signed unix_time id files =
    elim (init_ca (generate_ca_cert to_string self_signed) files) [
      | none ↦ (err (internal (codes "Failed to initialize CA")), files)
      | some files' ↦ elim (generate_node_cert to_string self_signed id) [
        | none ↦ (err (internal (codes "Failed to generate cert")), files')
        | some (cert, key) ↦ elim (load_ca_pem files') [
          | none ↦ (err (internal (codes "Failed to load CA cert")), files')
          | some ca ↦ (
            ok (record {
              node_cert_pem = cert;
              node_key_pem = key;
              ca_cert_pem = ca;
              expires_at_unix = unix_time + 90 * (24 * 3600);
            }),
            files',
          )
        ]
      ]
    ]

-- What `join` knows: the files of the node and the shared maps.
pub record Issuer : Type 0 where
  pub files : Files
  pub shared : Shared

module _ (to_string : Uuid → Text) (parse_str : Text → Option Uuid)
    (self_signed : List Text → Option (Bytes × Bytes)) where
  abbrev pub finish_join :
      (version : Text) (now : ℕ)
      → NodeId
      → JoinMessage
      → Issuer
      → Result Status JoinReply × Files
      → Result Status JoinReply × Issuer
  finish_join version now id m s (ok reply, files) =
      (ok reply, record { files = files; shared = admit now (joining_node version id m) s.shared })
  finish_join version now id m s (err e, files) = (err e, record s { files = files })
  finish_join version now id m s (Result.panic, files) = (Result.panic, record s { files = files })

  -- The messages of the libraries in an error are left out.
  unfoldable pub join :
      Security
      → (version : Text) (now unix_time : ℕ) → JoinMessage
      → Issuer
      → Result Status JoinReply × Issuer
  join security version now unix_time m s = elim (parse_str m.node_id) [
    | none ↦ (err (invalid_argument (codes "invalid node_id in join request")), s)
    | some id ↦ elim (has_ca_key s.files) [
      | false ↦ (
        err (failed_precondition (codes "This node is not a certificate issuer (missing CA key)")),
        s,
      )
      | true ↦ elim (check_secret security (trim m.join_secret)) [
        | some refused ↦ (err refused, s)
        | none ↦ finish_join version now id m s (enroll to_string self_signed unix_time id s.files)
      ]
    ]
  ]
