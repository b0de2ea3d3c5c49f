-- ===== src/Grpc/Server.antt =====
-- agent/src/grpc_server/mod.rs: a job that a peer or a client hands in, `submit_job`, and the end of a
-- job that a peer reports, `report_job_status`.
pub mod Reports
pub mod Delegation
use all4one.Prelude.{
  ℕ, ◌++◌, Bool, Option, none, some, List, [], ◌∷◌, Text, codes, get, is_blank, Result, ok, err,
  panic, nat_eq, if◌then◌else◌,
}
use mathlib.Core.Option
use all4one.Common.{
  NodeId, JobId, Uuid, JobStatus, queued, scheduled, running, completed, failed, cancelled,
}
use all4one.Cluster.Scheduler.{SchedulingRequest}
use all4one.Jobs.Records.{ℤ, pos, Jobs, JobRecord, Report, apply_terminal_job_update}
use all4one.Jobs.Submission.{SubmitJobResponse, SpawnRequest, enqueue_remote_job}
use all4one.Jobs.Conversions.{job_status_from_string}
use all4one.Jobs.Executor.{is_zero}
use all4one.Jobs.Dispatch.{Self, World, Effect, spawned, Call}
use all4one.Jobs.Enqueue.{Enqueued, enqueue_job}
use all4one.Rest.Events.{OpsEvent}
use all4one.Rest.JobEvents.{terminal_event}
use all4one.Grpc.Messages.{SubmitMessage, ReportMessage, from_proto}

-- `tonic::Status`, by its code.
pub data Status : Type 0 where
  invalid_argument not_found failed_precondition unauthenticated internal unavailable :
      Text → Status

-- `proto::SubmitJobResponse`.
pub record SubmitReply : Type 0 where
  pub job_id : Text
  pub status : Text
  pub assigned_to : Text
  pub created_at : Text

pub record Submitted : Type 0 where
  pub answer : Result Status SubmitReply
  pub effects : List Effect
  pub retry : Option SchedulingRequest
  pub world : World

-- A field of a message where an empty one stands for none.
abbrev pub non_blank : Text → Option Text
non_blank t = if is_blank t then none else some t

-- The exit code of a report by its state: a failed job with code 0 has none.
abbrev pub reported_code : JobStatus → ℤ → Option ℤ
reported_code completed code = some code
reported_code failed code = if is_zero code then none else some code
reported_code queued code = none
reported_code scheduled code = none
reported_code running code = none
reported_code cancelled code = none

abbrev pub report_of : ReportMessage → Report
report_of m =
    let status = job_status_from_string m.status in
    record {
      status = status;
      exit_code = reported_code status m.exit_code;
      error = non_blank m.error;
    }

-- The ids' texts are the uuid library's, and the text of a time is the chrono library's.
module _ (to_string : Uuid → Text) (parse_str : Text → Option Uuid) (to_rfc3339 : ℕ → Text) where
  abbrev pub reply_of : SubmitJobResponse → SubmitReply
  reply_of r = record {
    job_id = to_string r.job_id;
    status = codes "queued";
    assigned_to = to_string r.assigned_to;
    created_at = to_rfc3339 r.created_at;
  }

  -- The answer, with the error of an invalid request.
  abbrev pub answer_of : Result Text SubmitJobResponse → Result Status SubmitReply
  answer_of (ok r) = ok (reply_of r)
  answer_of (err e) = err (invalid_argument e)
  answer_of panic = panic

  abbrev pub submitted_here : Enqueued → Submitted
  submitted_here e = record {
    answer = answer_of e.answer;
    effects = e.effects;
    retry = e.retry;
    world = e.world;
  }

  abbrev pub submitted_remote :
      World → Result Text (SubmitJobResponse × SpawnRequest) × Jobs → Submitted
  submitted_remote w (ok (r, spawn), jobs) = record {
    answer = ok (reply_of r);
    effects = spawned spawn ∷ [];
    retry = none;
    world = record w { jobs = jobs };
  }
  submitted_remote w (err e, jobs) = record {
    answer = err (invalid_argument e);
    effects = [];
    retry = none;
    world = record w { jobs = jobs };
  }
  submitted_remote w (panic, jobs) = record {
    answer = panic;
    effects = [];
    retry = none;
    world = record w { jobs = jobs };
  }

  -- A job with an id comes from another node; without one it is a new job, with the id `new_id`.
  unfoldable pub submit_job : Self → Call → (new_id : JobId) → SubmitMessage → World → Submitted
  submit_job self call new_id m w =
      if is_blank m.job_id
      then submitted_here (enqueue_job to_string self call new_id (from_proto m) w)
      else elim (parse_str m.job_id) [
        | none ↦ record {
          answer = err (invalid_argument (codes "invalid delegated job id"));
          effects = [];
          retry = none;
          world = w;
        }
        | some id ↦ submitted_remote w (
            enqueue_remote_job call.now self.node_id id (from_proto m) (non_blank m.origin_endpoint)
              w.jobs)
      ]

  -- The events of a report that is taken over.
  abbrev report_events : (now : ℕ) → JobId → Report → Option JobRecord → List OpsEvent
  report_events now id r none = []
  report_events now id r (some job) = terminal_event to_string now id r.status job.assigned_to ∷ []

  abbrev pub report_answer : JobId → Option Jobs → Jobs → Result Status (Unit {0}) × Jobs
  report_answer id (some updated) jobs = (ok tt, updated)
  report_answer id none jobs =
      (err (not_found (codes "job " ++ (to_string id ++ codes " not found on origin node"))), jobs)

  unfoldable pub report_job_status :
      (now : ℕ) → ReportMessage → Jobs → (Result Status (Unit {0}) × Jobs) × List OpsEvent
  report_job_status now m jobs = elim (parse_str m.job_id) [
    | none ↦ ((err (invalid_argument (codes "invalid job id in status report")), jobs), [])
    | some id ↦ (
      report_answer id (apply_terminal_job_update now id (report_of m) jobs) jobs,
      report_events now id (report_of m) (get id jobs),
    )
  ]
