-- ===== src/Jobs/Dispatch.antt =====
-- agent/src/api_rest/mod.rs: a job that a client hands in, `enqueue_job`, its way to a node,
-- `dispatch_to_assigned`, and the rounds of `spawn_retry_dispatch`. What other tasks do to the shared
-- maps while one of these waits is an argument, and so is the answer of the other node. What the code
-- starts, sends and publishes is a list of effects in order. One operation reads one time, and
-- a round of retries reads the jobs and the cluster at one moment.
pub mod Rounds
pub mod Handover
pub mod Retry
pub mod Races
use all4one.Prelude.{
  ℕ, zero, suc, Bool, true, false, Option, none, some, List, [], ◌∷◌, ◌++◌, Text, codes, get,
  insert, Result, ok, err, nat_eq, ◌==◌, if◌then◌else◌,
}
use all4one.Common.{
  JobId, NodeId, Uuid, NodeInfo, ClusterState, JobStatus, queued, scheduled, running, completed,
  failed, cancelled,
}
use all4one.Cluster.Scheduler.{SchedulingRequest, pick_node}
use all4one.Jobs.Records.{JobRecord, Jobs}
use all4one.Jobs.Submission.{
  SubmitJobRequest, SubmitJobResponse, SpawnRequest, no_resources, new_record,
}
use all4one.Jobs.Conversions.{normalize_endpoint}
use all4one.Rest.Events.{OpsEvent, publish_ops_event}
use all4one.Grpc.Messages.{SubmitMessage, submit_message}

-- What `AppState` says of the node itself.
pub record Self : Type 0 where
  pub node_id : NodeId
  pub local_node : NodeInfo

-- The maps that the tasks share.
pub record World : Type 0 where
  pub jobs : Jobs
  pub cluster : ClusterState

pub data Effect : Type 0 where
  spawned : SpawnRequest → Effect
  submitted : (endpoint : Text) → SubmitMessage → (answered : Bool) → Effect
  published : OpsEvent → Effect

-- Around one call of `dispatch_to_assigned`: what happens before it reads the cluster, and while the
-- other node is asked, whether that node answers, and the time.
pub record Call : Type 0 where
  pub before : World → World
  pub during : World → World
  pub deliver : Text → SubmitMessage → Bool
  pub now : ℕ

-- A round of `spawn_retry_dispatch`: what happens while it sleeps, and around its call.
abbrev pub Round : Type 0
Round = (World → World) × Call

pub record Dispatched : Type 0 where
  pub accepted : Bool
  pub effects : List Effect
  pub world : World

abbrev pub is_queued : JobStatus → Bool
is_queued queued = true
is_queued scheduled = false
is_queued running = false
is_queued completed = false
is_queued failed = false
is_queued cancelled = false

-- The lock after the other node took the job.
unfoldable pub mark_dispatched : (now : ℕ) → NodeId → JobId → Jobs → Jobs
mark_dispatched now assigned id jobs = elim (get id jobs) [
  | none ↦ jobs
  | some job ↦
      if is_queued job.status
      then insert id (record job { status = running; assigned_to = assigned; updated_at = now })
          jobs
      else jobs
]

abbrev pub local_spawn : JobId → SubmitJobRequest → SpawnRequest
local_spawn id request = record {
  job_id = id;
  runtime = request.runtime;
  source = request.source;
  command = request.command;
  resources = request.resources;
  completion_callback = none;
}

-- The test of a round of `spawn_retry_dispatch`: the job is there and queued.
abbrev pub is_waiting : Option JobRecord → Bool
is_waiting none = false
is_waiting (some job) = is_queued job.status

-- `to_string` of an id is the uuid library's.
module _ (to_string : Uuid → Text) where
  unfoldable pub job_event :
      (now : ℕ) (kind level : Text) → JobId → (what : Text) → NodeId → (after : Text) → Effect
  job_event now kind level id what node after = published (
      publish_ops_event to_string now kind level
        (codes "Job " ++ (to_string id ++ (what ++ (to_string node ++ after)))) (some node)
        (some id))

  -- `submit_remote` and what follows its answer.
  unfoldable pub dispatch_remote :
      Self → Call → World → NodeId → (endpoint : Text) → JobId → SubmitJobRequest → Dispatched
  unfolding job_event
  dispatch_remote self call w assigned endpoint id request =
      let message = submit_message to_string id self.local_node.grpc_endpoint request in
      let target = normalize_endpoint endpoint in
      let w' = call.during w in
      if call.deliver target message
      then record {
        accepted = true;
        effects =
            submitted target message true
            ∷ job_event call.now (codes "job.dispatched") (codes "info") id
                (codes " dispatched to node ") assigned []
            ∷ [];
        world = record w' { jobs = mark_dispatched call.now assigned id w'.jobs };
      }
      else record {
        accepted = false;
        effects =
            submitted target message false
            ∷ job_event call.now (codes "job.dispatch_failed") (codes "warn") id
                (codes " dispatch to node ") assigned (codes " failed")
            ∷ [];
        world = w';
      }

  unfoldable pub dispatch_to_assigned :
      Self → Call → World → NodeId → JobId → SubmitJobRequest → Dispatched
  unfolding job_event
  dispatch_to_assigned self call w assigned id request =
      let w' = call.before w in
      if assigned == self.node_id
      then record {
        accepted = true;
        effects =
            spawned (local_spawn id request)
            ∷ job_event call.now (codes "job.started") (codes "info") id
                (codes " started on local node ") self.node_id []
            ∷ [];
        world = w';
      }
      else elim (get assigned w'.cluster.nodes) [
        | none ↦ record { accepted = false; effects = []; world = w' }
        | some n ↦ dispatch_remote self call w' assigned n.grpc_endpoint id request
      ]

  -- What is left of the rounds: they number `n`, the next one is round `i`.
  unfoldable pub retry_rounds :
      Self
      → JobId
      → SubmitJobRequest
      → SchedulingRequest
      → (rounds : ℕ → Round) → (n i : ℕ) → World
      → Dispatched
  retry_rounds self id request scheduling rounds zero i w = record {
    accepted = false;
    effects = [];
    world = w;
  }
  retry_rounds self id request scheduling rounds (suc n) i w =
      let (sleep, call) = rounds i in
      let awake = sleep w in
      elim (is_waiting (get id awake.jobs)) [
        | false ↦ record { accepted = false; effects = []; world = awake }
        | true ↦ elim (pick_node to_string self.local_node awake.cluster scheduling) [
          | none ↦ retry_rounds self id request scheduling rounds n (suc i) awake
          | some node ↦
              let d = dispatch_to_assigned self call awake node id request in
              elim d.accepted [
                | true ↦ d
                | false ↦
                    let rest = retry_rounds self id request scheduling rounds n (suc i) d.world in
                    record rest { effects = d.effects ++ rest.effects }
              ]
        ]
      ]

  unfoldable pub spawn_retry_dispatch :
      Self
      → JobId
      → SubmitJobRequest
      → SchedulingRequest
      → (rounds : ℕ → Round) → World
      → Dispatched
  spawn_retry_dispatch self id request scheduling rounds w =
      retry_rounds self id request scheduling rounds 60 0 w
