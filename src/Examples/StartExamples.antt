-- ===== src/Examples/StartExamples.antt =====
-- The properties of agent/src/config, agent/src/node and agent/src/main.rs.
use all4one.Prelude.{
  ℕ, ◌+◌, ◌-◌, ◌≤◌, ◌≡◌, refl, ◌||◌, true, false, Option, none, some, [], ◌∷◌, Text, codes, trim,
  trim_start, trim_end, before_trimmed, is_whitespace, is_blank, split, get, insert, nat_eq,
  list_eq, ◌==◌, if◌then◌else◌, arith,
}
use all4one.Common.{NodeId}
use all4one.Storage.Chunks.{Files}
use all4one.Certificates.{has_ca_key, has_node_credentials}
use all4one.Agent.Config.{
  AgentConfig, Toml, roles_config, network_config, discovery_config, security_config,
  executor_config, logging_config, lookup_path, ensure_required, check_config, load,
}
use all4one.Agent.Config.Loading.{IsGiven, load_lem}
use all4one.Agent.Identity.{node_id_path, node_id}
use all4one.Agent.Identity.Persistence.{node_id_twice}
use all4one.Agent.Startup.{Bundle, enroll_with_seed_ca}
use all4one.Agent.Startup.Enrollment.{enroll_reaches_seed}

-- A value is the text of the field that it was reached by, and has all fields.
abbrev any_field : Toml
any_field = record { Value = Text; field = λ name v. some name; as_str = λ v. some v }

abbrev config : AgentConfig
config = record {
  node = record {
    tier = 1;
    availability = codes "always";
    quorum_participant = true;
    data_dir = codes "d";
  };
  roles = roles_config none none none;
  network = network_config none none none none;
  discovery = discovery_config none none;
  security = security_config (codes "ca") none none;
  executor = executor_config none none none none;
  capabilities = record {
    has_docker = false;
    java = none;
    has_python = none;
    has_wasm = false;
    gpu_enabled = false;
  };
  logging = logging_config none none;
}

load_lem_example :
    (text : Text) × (v : Text) × (some (codes "toml") ≡ some text)
    × (some (codes "root") ≡ some v)
    × (some config ≡ some config)
    × (1 ≤ 2)
    × ((codes "ca" == codes "shared-secret" || codes "ca" == codes "ca") ≡ true)
    × IsGiven any_field (codes "node.tier") v
    × IsGiven any_field (codes "node.availability") v
    × IsGiven any_field (codes "node.data_dir") v
    × IsGiven any_field (codes "security.mode") v
unfolding load ensure_required lookup_path check_config security_config split is_blank trim
    trim_start trim_end before_trimmed is_whitespace
load_lem_example =
    load_lem any_field (some (codes "toml")) (λ t. some (codes "root")) (λ t. some config) config
      refl

-- An id's text is one letter, the one that the id follows.
abbrev id_text : NodeId → Text
id_text i = (b'a' + i) ∷ []

abbrev parse_id : Text → Option NodeId
parse_id (i ∷ []) = some (i - b'a')
parse_id _ = none

node_id_twice_example :
    node_id id_text parse_id 9 (insert node_id_path (codes "d") [])
    ≡ (some 3, insert node_id_path (codes "d") [])
unfolding node_id get trim trim_start trim_end before_trimmed is_whitespace
node_id_twice_example =
    node_id_twice id_text parse_id 3 9 3 [] (insert node_id_path (codes "d") []) refl refl

abbrev bundle : Bundle
bundle = record {
  node_cert_pem = codes "crt";
  node_key_pem = codes "key";
  ca_cert_pem = codes "ca";
}

-- The second seed answers in the third attempt.
abbrev seed_answers : ℕ → Option Text → Option Text → Text → Option Bundle
seed_answers k secret path seed =
    if k == 2 then (if seed == codes "h2" then some bundle else none) else none

enroll_reaches_seed_example :
    (files' : Files) × (enroll_with_seed_ca config.security
        (codes "h1" ∷ codes "h2" ∷ [])
        seed_answers
        []
      ≡ some files')
    × (has_node_credentials files' ≡ true)
    × (has_ca_key files' ≡ has_ca_key [])
enroll_reaches_seed_example =
    enroll_reaches_seed config.security (codes "h1" ∷ codes "h2" ∷ []) seed_answers [] 2
      (omega arith) refl
