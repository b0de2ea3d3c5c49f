-- ===== src/Jobs/Submission.antt =====
-- agent/src/api_rest/mod.rs: a job that another node sends, `enqueue_remote_job`. The call of the
-- executor is a value: what `spawn_job` is given.
use all4one.Prelude.{
  ℕ, Bool, ◌||◌, Option, none, some, List, Text, codes, insert, Result, ok, err, nat_eq, ◌==◌,
  if◌then◌else◌,
}
use all4one.Common.{JobId, NodeId, Runtime, JobResources, JobStatus, queued}
use all4one.Jobs.Records.{JobRecord, Jobs}

pub record SubmitCapabilities : Type 0 where
  pub needs_docker : Bool

pub record SubmitConstraints : Type 0 where
  pub tier_min : ℕ
  pub requires_capabilities : SubmitCapabilities

pub record SubmitJobRequest : Type 0 where
  pub runtime : Runtime
  pub source : Text
  pub command : List Text
  pub resources : JobResources
  pub constraints : SubmitConstraints

pub record SubmitJobResponse : Type 0 where
  pub job_id : JobId
  pub status : JobStatus
  pub assigned_to : NodeId
  pub created_at : ℕ

pub record JobCompletionCallback : Type 0 where
  pub origin_endpoint : Text
  pub source_node_id : NodeId

-- The arguments of `spawn_job`, but for the shared maps.
pub record SpawnRequest : Type 0 where
  pub job_id : JobId
  pub runtime : Runtime
  pub source : Text
  pub command : List Text
  pub resources : JobResources
  pub completion_callback : Option JobCompletionCallback

abbrev callback_to : NodeId → Option Text → Option JobCompletionCallback
callback_to node none = none
callback_to node (some endpoint) =
    some (record { origin_endpoint = endpoint; source_node_id = node })

abbrev pub no_resources : JobResources → Bool
no_resources r = r.cpu_cores == 0 || r.memory_mb == 0

abbrev pub new_record : (now : ℕ) → NodeId → JobId → SubmitJobRequest → JobRecord
new_record now node id request = record {
  job_id = id;
  status = queued;
  assigned_to = node;
  runtime = request.runtime;
  source = request.source;
  command = request.command;
  created_at = now;
  updated_at = now;
  exit_code = none;
  error = none;
}

-- `node` is `state.node_id`.
unfoldable pub enqueue_remote_job :
    (now : ℕ) (node : NodeId) (id : JobId)
    → SubmitJobRequest
    → Option Text
    → Jobs
    → Result Text (SubmitJobResponse × SpawnRequest) × Jobs
enqueue_remote_job now node id request origin_endpoint jobs =
    if no_resources request.resources
    then (err (codes "resources.cpu_cores and resources.memory_mb must be > 0"), jobs)
    else (
      ok (
        record { job_id = id; status = queued; assigned_to = node; created_at = now },
        record {
          job_id = id;
          runtime = request.runtime;
          source = request.source;
          command = request.command;
          resources = request.resources;
          completion_callback = callback_to node origin_endpoint;
        },
      ),
      insert id (new_record now node id request) jobs,
    )
