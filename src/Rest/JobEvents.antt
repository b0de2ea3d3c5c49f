-- ===== src/Rest/JobEvents.antt =====
-- agent/src/api_rest/mod.rs: the events of `apply_terminal_job_update` and `delete_job`.
use all4one.Prelude.{ℕ, some, ◌++◌, Text, codes}
use all4one.Common.{
  NodeId, JobId, Uuid, JobStatus, queued, scheduled, running, completed, failed, cancelled,
}
use all4one.Rest.Events.{OpsEvent, publish_ops_event}

-- The names that `derive(Debug)` gives.
abbrev pub debug_job_status : JobStatus → Text
debug_job_status queued = codes "Queued"
debug_job_status scheduled = codes "Scheduled"
debug_job_status running = codes "Running"
debug_job_status completed = codes "Completed"
debug_job_status failed = codes "Failed"
debug_job_status cancelled = codes "Cancelled"

abbrev pub terminal_level : JobStatus → Text
terminal_level failed = codes "error"
terminal_level queued = codes "info"
terminal_level scheduled = codes "info"
terminal_level running = codes "info"
terminal_level completed = codes "info"
terminal_level cancelled = codes "info"

module _ (to_string : Uuid → Text) where
  unfoldable pub terminal_event : (now : ℕ) → JobId → JobStatus → (assigned : NodeId) → OpsEvent
  unfolding publish_ops_event
  terminal_event now id status assigned =
      publish_ops_event to_string now (codes "job.terminal") (terminal_level status)
        (codes "Job "
          ++ (to_string id ++ (codes " updated to terminal status " ++ debug_job_status status)))
        (some assigned) (some id)

  unfoldable pub cancelled_event : (now : ℕ) → JobId → (assigned : NodeId) → OpsEvent
  unfolding publish_ops_event
  cancelled_event now id assigned =
      publish_ops_event to_string now (codes "job.cancelled") (codes "warn")
        (codes "Job " ++ (to_string id ++ codes " was cancelled")) (some assigned) (some id)
