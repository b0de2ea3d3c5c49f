-- ===== src/Jobs/Enqueue.antt =====
-- agent/src/api_rest/mod.rs: a job that a client hands in, `post_job` and `enqueue_job`.
pub mod Outcomes
use all4one.Prelude.{
  ℕ, Bool, Option, none, some, List, [], ◌∷◌, ◌++◌, Text, codes, insert, Result, ok, err, panic,
  nat_eq, if◌then◌else◌,
}
use all4one.Common.{JobId, NodeId, Uuid, queued}
use all4one.Cluster.Scheduler.{SchedulingRequest, pick_node}
use all4one.Jobs.Records.{JobRecord}
use all4one.Jobs.Submission.{SubmitJobRequest, SubmitJobResponse, no_resources, new_record}
use all4one.Jobs.Dispatch.{Self, World, Effect, Call, Dispatched, dispatch_to_assigned}

-- What `enqueue_job` answers, what it did, the task that tries again, and the maps it leaves.
pub record Enqueued : Type 0 where
  pub answer : Result Text SubmitJobResponse
  pub effects : List Effect
  pub retry : Option SchedulingRequest
  pub world : World

abbrev pub node_or : NodeId → Option NodeId → NodeId
node_or self none = self
node_or self (some node) = node

abbrev pub scheduling_of : SubmitJobRequest → SchedulingRequest
scheduling_of r = record {
  runtime = r.runtime;
  tier_min = r.constraints.tier_min;
  require_docker = r.constraints.requires_capabilities.needs_docker;
}

-- What the handler of a submission answers.
pub data Posted : Type 0 where
  bad_request : Text → Posted
  accepted : SubmitJobResponse → Posted

abbrev pub queued_world :
    Self → (now : ℕ) → JobId → SubmitJobRequest → World → Option NodeId → World
queued_world self now id request w assigned = record w {
  jobs = insert id (new_record now (node_or self.node_id assigned) id request) w.jobs;
}

abbrev pub response_of : Self → (now : ℕ) → JobId → Option NodeId → SubmitJobResponse
response_of self now id assigned = record {
  job_id = id;
  status = queued;
  assigned_to = node_or self.node_id assigned;
  created_at = now;
}

abbrev pub without_resources : World → Enqueued
without_resources w = record {
  answer = err (codes "resources.cpu_cores and resources.memory_mb must be > 0");
  effects = [];
  retry = none;
  world = w;
}

module _ (to_string : Uuid → Text) where
  -- From the insertion of the record on, with what the scheduler found.
  unfoldable pub enqueue_assigned :
      Self → Call → JobId → SubmitJobRequest → World → Option NodeId → Enqueued
  enqueue_assigned self call id request w none = record {
    answer = ok (response_of self call.now id none);
    effects = [];
    retry = some (scheduling_of request);
    world = queued_world self call.now id request w none;
  }
  enqueue_assigned self call id request w (some node) =
      let d =
        dispatch_to_assigned to_string self call
          (queued_world self call.now id request w (some node)) node id request in
      record {
        answer = ok (response_of self call.now id (some node));
        effects = d.effects;
        retry = none;
        world = d.world;
      }

  unfoldable pub enqueue_job : Self → Call → JobId → SubmitJobRequest → World → Enqueued
  enqueue_job self call id request w =
      if no_resources request.resources
      then without_resources w
      else enqueue_assigned self call id request w
          (pick_node to_string self.local_node w.cluster (scheduling_of request))

  abbrev pub posted : Result Text SubmitJobResponse → Option Posted
  posted (ok response) = some (accepted response)
  posted (err e) = some (bad_request e)
  posted panic = none

  -- `post_job`, of what the readers of YAML and JSON, which are libraries, make of the body: a request,
  -- or the message of the second. It gives the answer, and what the call of `enqueue_job` did.
  unfoldable pub post_job :
      Self → Call → JobId → Result Text SubmitJobRequest → World → Option Posted × Option Enqueued
  post_job self call id (err e) w = (some (bad_request (codes "invalid job payload: " ++ e)), none)
  post_job self call id panic w = (none, none)
  post_job self call id (ok request) w =
      let e = enqueue_job self call id request w in (posted e.answer, some e)
