-- ===== src/Examples/JobExamples.antt =====
-- The properties of agent/src/executor/mod.rs and of the conversions at one job.
use all4one.Prelude.{◌≡◌, refl, none, some, [], ◌∷◌, codes, get, insert, nat_eq}
use all4one.Common.{JobStatus, queued, running, completed, cancelled, executable}
use all4one.Jobs.Records.{pos, JobRecord, Jobs, delete_job}
use all4one.Jobs.Executor.{start_job, exited, end_job, finish_job}
use all4one.Jobs.Executor.Lifecycle.{
  KeepsJob, Steps, started, stopped, cancel, done, next, Steps-KeepsJob,
}
use all4one.Jobs.Executor.Endings.{started_after_deletion}

abbrev job : JobStatus → JobRecord
job s = record {
  job_id = 5;
  status = s;
  assigned_to = 1;
  runtime = executable;
  source = codes "/bin/true";
  command = [];
  created_at = 10;
  updated_at = 10;
  exit_code = none;
  error = none;
}

abbrev jobs : JobStatus → Jobs
jobs s = (5, job s) ∷ []

-- The job is started, cancelled, and its process killed.
abbrev jobs_running : Jobs
jobs_running = (5, record (job running) { updated_at = 11 }) ∷ []

abbrev jobs_cancelled : Jobs
jobs_cancelled = (5, record (job cancelled) { updated_at = 12 }) ∷ []

one_run : Steps (jobs queued) jobs_cancelled
unfolding start_job delete_job end_job finish_job get insert
one_run = next (started 11 5 refl) (
    next (cancel {b = jobs_cancelled} 12 (some 5) refl)
      (next (stopped {b = jobs_cancelled} 13 5 (exited none) refl) done))

Steps-KeepsJob_example : KeepsJob (get 5 (jobs queued)) (get 5 jobs_cancelled)
Steps-KeepsJob_example = Steps-KeepsJob 5 one_run

started_after_deletion_example :
    (running_jobs : Jobs) × (j' : JobRecord) × (start_job 12 5
        (delete_job 12 (some 5) (jobs queued)).1
      ≡ some running_jobs)
    × (get 5 (end_job 12 5 (exited (some (pos 0))) running_jobs) ≡ some j')
    × (j'.status ≡ completed)
unfolding get
started_after_deletion_example = started_after_deletion 12 5 (jobs queued) (job queued) refl refl
