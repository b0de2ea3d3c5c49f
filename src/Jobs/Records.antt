-- ===== src/Jobs/Records.antt =====
-- agent/src/api_rest/mod.rs: the record of a job, and the handlers that delete a job and take over the
-- end of a job from another node. A handler returns its answer and the map of jobs.
use all4one.Prelude.{
  ℕ, Bool, true, false, Option, none, some, List, Text, Map, get, insert, nat_eq, if◌then◌else◌,
}
use all4one.Common.{
  JobId, NodeId, Runtime, JobStatus, queued, scheduled, running, completed, failed, cancelled,
}

-- `i32`, the exit code of a process: `negsuc n` is `-1 - n`.
pub data ℤ : Type 0 where
  pos : ℕ → ℤ
  negsuc : ℕ → ℤ

pub record JobRecord : Type 0 where
  pub job_id : JobId
  pub status : JobStatus
  pub assigned_to : NodeId
  pub runtime : Runtime
  pub source : Text
  pub command : List Text
  pub created_at : ℕ
  pub updated_at : ℕ
  pub exit_code : Option ℤ
  pub error : Option Text

abbrev pub Jobs : Type 0
Jobs = Map JobId JobRecord

-- What the handler of a deletion answers.
pub data Deletion : Type 0 where
  bad_request not_found conflict : Deletion
  deleted : JobRecord → Deletion

abbrev pub is_finished : JobStatus → Bool
is_finished completed = true
is_finished failed = true
is_finished cancelled = true
is_finished queued = false
is_finished scheduled = false
is_finished running = false

-- `delete_job`, for an id that was parsed: `Uuid::parse_str` gives none on text that is no id.
unfoldable pub delete_job : (now : ℕ) → Option JobId → Jobs → Deletion × Jobs
delete_job now none jobs = (bad_request, jobs)
delete_job now (some id) jobs = elim (get id jobs) [
  | none ↦ (not_found, jobs)
  | some existing ↦
      let updated = record existing { status = cancelled; updated_at = now } in
      if is_finished existing.status
      then (conflict, jobs)
      else (deleted updated, insert id updated jobs)
]

-- The end of a job, as one node reports it to another.
pub record Report : Type 0 where
  pub status : JobStatus
  pub exit_code : Option ℤ
  pub error : Option Text

-- `apply_terminal_job_update`; `None` stands for its error, that the job is not found.
unfoldable pub apply_terminal_job_update : (now : ℕ) → JobId → Report → Jobs → Option Jobs
apply_terminal_job_update now id r jobs = elim (get id jobs) [
  | none ↦ none
  | some job ↦ some (
      insert id
        (record job {
          status = r.status;
          exit_code = r.exit_code;
          error = r.error;
          updated_at = now;
        })
        jobs)
]
