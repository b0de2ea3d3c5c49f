-- ===== src/Grpc/Messages.antt =====
-- agent/src/grpc_client/mod.rs: the messages of agent/proto that a client fills in, and the
-- request that a server reads from one. Whether a message reaches its peer, and what the peer answers,
-- are arguments where the messages are sent.
use all4one.Prelude.{ℕ, false, ◌++◌, Option, none, some, List, [], Text, codes, decimal}
use all4one.Common.{NodeId, JobId, Uuid}
use all4one.Jobs.Records.{ℤ, pos, Report}
use all4one.Jobs.Submission.{SubmitJobRequest}
use all4one.Jobs.Conversions.{runtime_to_string, runtime_from_string, job_status_to_string}

-- `proto::SubmitJobRequest`.
pub record SubmitMessage : Type 0 where
  pub runtime : Text
  pub source : Text
  pub command : List Text
  pub cpu_cores : ℕ
  pub memory_mb : ℕ
  pub job_id : Text
  pub origin_endpoint : Text

-- `proto::ReportJobStatusRequest`.
pub record ReportMessage : Type 0 where
  pub job_id : Text
  pub status : Text
  pub exit_code : ℤ
  pub error : Text
  pub source_node_id : Text

-- `proto::JoinRequest`.
pub record JoinMessage : Type 0 where
  pub node_id : Text
  pub csr_pem : Text
  pub join_secret : Text
  pub tier : ℕ
  pub grpc_endpoint : Text
  pub rest_endpoint : Text

-- `unwrap_or_default()`.
abbrev pub text_or_empty : Option Text → Text
text_or_empty none = []
text_or_empty (some t) = t

abbrev pub code_or_zero : Option ℤ → ℤ
code_or_zero none = pos 0
code_or_zero (some c) = c

abbrev pub from_proto : SubmitMessage → SubmitJobRequest
from_proto m = record {
  runtime = runtime_from_string m.runtime;
  source = m.source;
  command = m.command;
  resources = record { cpu_cores = m.cpu_cores; memory_mb = m.memory_mb };
  constraints = record { tier_min = 0; requires_capabilities = record { needs_docker = false } };
}

-- `to_string` of an id is the uuid library's.
module _ (to_string : Uuid → Text) where
  abbrev pub submit_message : JobId → (origin_endpoint : Text) → SubmitJobRequest → SubmitMessage
  submit_message id origin r = record {
    runtime = runtime_to_string r.runtime;
    source = r.source;
    command = r.command;
    cpu_cores = r.resources.cpu_cores;
    memory_mb = r.resources.memory_mb;
    job_id = to_string id;
    origin_endpoint = origin;
  }

  abbrev pub report_message : JobId → Report → (source_node_id : NodeId) → ReportMessage
  report_message id r node = record {
    job_id = to_string id;
    status = job_status_to_string r.status;
    exit_code = code_or_zero r.exit_code;
    error = text_or_empty r.error;
    source_node_id = to_string node;
  }

  -- `request_join_with_ca`.
  abbrev pub join_message :
      NodeId
      → (join_secret : Option Text) → (tier : ℕ) (host : Text) (grpc_port rest_port : ℕ)
      → JoinMessage
  join_message id secret tier host grpc_port rest_port = record {
    node_id = to_string id;
    csr_pem = [];
    join_secret = text_or_empty secret;
    tier = tier;
    grpc_endpoint = host ++ (codes ":" ++ decimal grpc_port);
    rest_endpoint = host ++ (codes ":" ++ decimal rest_port);
  }
