-- ===== src/Agent/Startup.antt =====
-- agent/src/main.rs and `init_raft` of agent/src/raft/mod.rs: the arguments of the command, the address
-- that a node gives of itself, its enrollment with a seed, and the members that it starts the consensus
-- with.
pub mod Enrollment
use all4one.Prelude.{
  ℕ, zero, suc, ◌+◌, Bool, true, false, not, ◌&&◌, ◌||◌, Option, none, some, List, [], ◌∷◌, ◌++◌,
  Text, Bytes, Map, codes, decimal, insert, trim, is_blank, is_empty, nat_eq, list_eq, ◌==◌,
  if◌then◌else◌,
}
use all4one.Common.{NodeId, NodeProfile, NodeInfo, online}
use all4one.Storage.Chunks.{Files}
use all4one.Cluster.Discovery.{parse_u16}
use all4one.Certificates.{init_ca, has_node_credentials, save_node_cert}
use all4one.Agent.Config.{AgentConfig, SecurityConfig, NetworkConfig}

-- The loop of `parse_config_path`: the argument after the first `--config` that has one.
unfoldable pub parse_config_path : List Text → Option Text
parse_config_path [] = none
parse_config_path (arg ∷ []) = none
parse_config_path (arg ∷ next ∷ args) =
    let rest = parse_config_path (next ∷ args) in
    if arg == codes "--config" then some next else rest

abbrev some_or {ℓ} : {A : Type ℓ} → Option A → A → A
some_or none d = d
some_or (some a) d = a

-- `filter(|v| !v.trim().is_empty())`.
abbrev not_blank : Option Text → Option Text
not_blank none = none
not_blank (some t) = if is_blank t then none else some t

-- The variables of the environment are arguments.
unfoldable pub advertise_host : (host_var hostname : Option Text) → (bind_address : Text) → Text
advertise_host host_var hostname bind = elim (not_blank host_var) [
  | some host ↦ host
  | none ↦ if bind == codes "0.0.0.0" then some_or hostname bind else bind
]

unfoldable pub advertise_port : (port_var : Option Text) → (configured : ℕ) → ℕ
advertise_port none configured = configured
advertise_port (some t) configured = some_or (parse_u16 (trim t)) configured

unfoldable pub local_node : NodeProfile → (version host : Text) (grpc_port rest_port : ℕ) → NodeInfo
local_node profile version host grpc_port rest_port = record {
  profile = profile;
  status = online;
  version = version;
  grpc_endpoint = host ++ (codes ":" ++ decimal grpc_port);
  rest_endpoint = host ++ (codes ":" ++ decimal rest_port);
}

-- `EnrollmentBundle`, without the time of expiry, which is only printed.
pub record Bundle : Type 0 where
  pub node_cert_pem : Bytes
  pub node_key_pem : Bytes
  pub ca_cert_pem : Bytes

-- The secret of a request to join.
unfoldable pub join_secret : SecurityConfig → Option Text
join_secret s =
    let secret = trim s.shared_secret in
    if s.mode == codes "shared-secret"
    then (if is_empty secret then none else some secret)
    else none

unfoldable pub ca_path : SecurityConfig → Option Text
ca_path s = if is_empty s.ca_cert_path then none else some s.ca_cert_path

-- One attempt over the seeds: the first that grants a bundle. `ask` is the call of a seed.
unfoldable pub ask_seeds : (ask : Text → Option Bundle) → List Text → Option Bundle
ask_seeds ask [] = none
ask_seeds ask (seed ∷ seeds) = elim (ask seed) [ some b ↦ some b | none ↦ ask_seeds ask seeds ]

-- The attempts that are left: `n` of them, the next one is attempt `i`.
unfoldable pub enroll_attempts :
    (ask : ℕ → Text → Option Bundle) → List Text → (n i : ℕ) → Option Bundle
enroll_attempts ask seeds zero i = none
enroll_attempts ask seeds (suc n) i = elim (ask_seeds (ask i) seeds) [
  | some b ↦ some b
  | none ↦ enroll_attempts ask seeds n (suc i)
]

abbrev pub save_bundle : Option Bundle → Files → Option Files
save_bundle none files = none
save_bundle (some b) files =
    some (save_node_cert b.node_cert_pem b.node_key_pem b.ca_cert_pem files)

-- `enroll_with_seed_ca`; `ask` gives the answer of a seed in an attempt to a request with the secret and
-- the path of the authority's certificate. None is the error after the last attempt.
unfoldable pub enroll_with_seed_ca :
    SecurityConfig
    → (seeds : List Text) → (ask : ℕ → (secret path : Option Text) → Text → Option Bundle) → Files
    → Option Files
unfolding enroll_attempts ask_seeds
enroll_with_seed_ca s seeds ask files =
    save_bundle (enroll_attempts (λ i. ask i (join_secret s) (ca_path s)) seeds 20 0) files

abbrev pub is_bootstrap_issuer : AgentConfig → Bool
is_bootstrap_issuer c = c.node.tier == 0 || is_empty c.discovery.seeds

-- How a node gets its certificates when it starts; `generated` is what a new authority would be.
unfoldable pub set_up_certificates :
    AgentConfig
    → (generated : Option (Bytes × Bytes))
    → (ask : ℕ → (secret path : Option Text) → Text → Option Bundle) → Files
    → Option Files
unfolding enroll_with_seed_ca
set_up_certificates c generated ask files =
    if is_bootstrap_issuer c
    then init_ca generated files
    else if not (has_node_credentials files)
    then enroll_with_seed_ca c.security c.discovery.seeds ask files
    else some files

-- The members that `init_raft` starts a fresh log with: the node itself and its peers.
unfoldable pub add_peers : List (NodeId × Text) → Map NodeId Text → Map NodeId Text
add_peers [] members = members
add_peers ((id, endpoint) ∷ peers) members = add_peers peers (insert id endpoint members)

unfoldable pub initial_members : NodeId → Text → List (NodeId × Text) → Map NodeId Text
unfolding add_peers
initial_members id endpoint peers = add_peers peers (insert id endpoint [])
