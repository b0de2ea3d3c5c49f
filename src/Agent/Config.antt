-- ===== src/Agent/Config.antt =====
-- agent/src/config/schema.rs and agent/src/config/mod.rs: the configuration, the values that a missing
-- field takes, and the checks of `load`. Reading TOML is the toml library's: a value of it is looked at
-- through an interface, and what serde makes of the file is an argument, with a missing field as none.
pub mod Loading
use all4one.Prelude.{
  ℕ, ◌*◌, Bool, true, false, not, ◌&&◌, Option, none, some, List, [], ◌∷◌, ◌++◌, Text, codes, split,
  is_blank, ltb, Result, ok, err, panic, ◌>>=◌, ◌>>◌, nat_eq, list_eq, ◌==◌, if◌then◌else◌,
}

pub record NodeConfig : Type 0 where
  pub tier : ℕ
  pub availability : Text
  pub quorum_participant : Bool
  pub data_dir : Text

pub record RolesConfig : Type 0 where
  pub scheduler : Bool
  pub executor : Bool
  pub storage : Bool

pub record NetworkConfig : Type 0 where
  pub bind_address : Text
  pub grpc_port : ℕ
  pub rest_port : ℕ
  pub metrics_port : ℕ

pub record DiscoveryConfig : Type 0 where
  pub mdns : Bool
  pub seeds : List Text

pub record SecurityConfig : Type 0 where
  pub mode : Text
  pub shared_secret : Text
  pub ca_cert_path : Text

pub record ExecutorConfig : Type 0 where
  pub max_concurrent_jobs : ℕ
  pub docker_socket : Text
  pub cgroups_enabled : Bool
  pub output_max_bytes : ℕ

pub record CapabilitiesConfig : Type 0 where
  pub has_docker : Bool
  pub java : Option Text
  pub has_python : Option Text
  pub has_wasm : Bool
  pub gpu_enabled : Bool

pub record LoggingConfig : Type 0 where
  pub level : Text
  pub format : Text

pub record AgentConfig : Type 0 where
  pub node : NodeConfig
  pub roles : RolesConfig
  pub network : NetworkConfig
  pub discovery : DiscoveryConfig
  pub security : SecurityConfig
  pub executor : ExecutorConfig
  pub capabilities : CapabilitiesConfig
  pub logging : LoggingConfig

-- `#[serde(default = "f")]`: a missing field takes the value of `f`.
abbrev pub or_default {ℓ} : {A : Type ℓ} → A → Option A → A
or_default d none = d
or_default d (some a) = a

abbrev pub default_bind : Text
default_bind = codes "0.0.0.0"

abbrev pub default_grpc_port : ℕ
default_grpc_port = 7947

abbrev pub default_rest_port : ℕ
default_rest_port = 7946

abbrev pub default_metrics_port : ℕ
default_metrics_port = 9090

abbrev pub default_max_jobs : ℕ
default_max_jobs = 8

abbrev pub default_docker_socket : Text
default_docker_socket = codes "/var/run/docker.sock"

abbrev pub default_output_max : ℕ
default_output_max = 10 * (1024 * 1024)

unfoldable pub roles_config : (scheduler executor storage : Option Bool) → RolesConfig
roles_config scheduler executor storage = record {
  scheduler = or_default true scheduler;
  executor = or_default true executor;
  storage = or_default false storage;
}

unfoldable pub network_config :
    (bind_address : Option Text) (grpc_port rest_port metrics_port : Option ℕ) → NetworkConfig
network_config bind grpc rest metrics = record {
  bind_address = or_default default_bind bind;
  grpc_port = or_default default_grpc_port grpc;
  rest_port = or_default default_rest_port rest;
  metrics_port = or_default default_metrics_port metrics;
}

unfoldable pub discovery_config :
    (mdns : Option Bool) (seeds : Option (List Text)) → DiscoveryConfig
discovery_config mdns seeds = record { mdns = or_default true mdns; seeds = or_default [] seeds }

unfoldable pub security_config :
    (mode : Text) (shared_secret ca_cert_path : Option Text) → SecurityConfig
security_config mode secret path = record {
  mode = mode;
  shared_secret = or_default [] secret;
  ca_cert_path = or_default [] path;
}

unfoldable pub executor_config :
    (max_concurrent_jobs : Option ℕ) (docker_socket : Option Text) (cgroups_enabled : Option Bool)
    (output_max_bytes : Option ℕ)
    → ExecutorConfig
executor_config jobs socket cgroups output = record {
  max_concurrent_jobs = or_default default_max_jobs jobs;
  docker_socket = or_default default_docker_socket socket;
  cgroups_enabled = or_default true cgroups;
  output_max_bytes = or_default default_output_max output;
}

unfoldable pub logging_config : (level format : Option Text) → LoggingConfig
logging_config level format = record {
  level = or_default (codes "info") level;
  format = or_default (codes "text") format;
}

-- What the checks ask of a TOML value.
pub record Toml : Type 1 where
  pub Value : Type 0
  pub field : Text → Value → Option Value
  pub as_str : Value → Option Text

module _ (toml : Toml) where
  open toml use {Value, field, as_str}

  unfoldable pub lookup_path : List Text → Value → Option Value
  lookup_path [] v = some v
  lookup_path (part ∷ parts) v = elim (field part v) [ none ↦ none | some w ↦ lookup_path parts w ]

  abbrev pub is_blank_str : Option Text → Bool
  is_blank_str none = false
  is_blank_str (some t) = is_blank t

  unfoldable pub ensure_required : Value → (key_path : Text) → Result Text (Unit {0})
  unfolding lookup_path
  ensure_required v key_path = elim (lookup_path (split b'.' key_path) v) [
    | none ↦ err (key_path ++ codes " is required")
    | some found ↦
        if is_blank_str (as_str found) then err (key_path ++ codes " is required") else ok tt
  ]

-- The checks on the configuration that was read.
unfoldable pub check_config : AgentConfig → Result Text AgentConfig
check_config c =
    if ltb 2 c.node.tier
    then err (codes "node.tier must be 0, 1, or 2")
    else if not (c.security.mode == codes "shared-secret") && not (c.security.mode == codes "ca")
    then err (codes "security.mode must be 'shared-secret' or 'ca'")
    else ok c

-- A file that cannot be read, is no TOML, or does not fit the schema is an error; its path and the
-- library's own text are left out of the message.
abbrev pub or_error {ℓ} : {A : Type ℓ} → Text → Option A → Result Text A
or_error e none = err e
or_error e (some a) = ok a

module _ (toml : Toml) where
  unfoldable pub load :
      (raw : Option Text)
      → (parse : Text → Option toml.Value) → (from_str : Text → Option AgentConfig)
      → Result Text AgentConfig
  load raw parse from_str = or_error (codes "cannot read config file") raw >>= λ text.
      or_error (codes "invalid TOML") (parse text) >>= λ value.
      ensure_required toml value (codes "node.tier")
      >> (ensure_required toml value (codes "node.availability")
          >> (ensure_required toml value (codes "node.data_dir")
              >> (ensure_required toml value (codes "security.mode")
                  >> (or_error (codes "invalid config schema") (from_str text) >>= check_config))))
