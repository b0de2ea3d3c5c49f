-- ===== src/Jobs/Executor/Endings.antt =====
-- How a job ends in agent/src/executor/mod.rs: the record, the report, and a deletion before it.
use all4one.Prelude.{
  ℕ, zero, suc, ◌≡◌, refl, sym, ap, ◌∙◌, true, false, Option, some, get, insert, get-insert_self,
  nat_eq, Bool-cases, inl, inr,
}
use all4one.Common.{JobId, running, completed, cancelled}
use all4one.Jobs.Records.{
  ℤ, pos, negsuc, JobRecord, Jobs, Deletion, deleted, is_finished, delete_job, Report,
  apply_terminal_job_update,
}
use all4one.Jobs.Executor.{
  code_or, is_zero, is_cancelled, ended, start_job, finish_job, exit_report, outcome_report, exited,
  end_job,
}

-- The record says what the report says; an error of the record that the report does not name is one
-- that was there before.
abbrev pub Agrees : Report → JobRecord → Type 0
Agrees r j = (j.status ≡ r.status) × (j.exit_code ≡ r.exit_code)

zero_code : (code : ℤ) → is_zero code ≡ true → code ≡ pos 0
zero_code (pos zero) h = refl
zero_code (pos (suc n)) h = absurd cc
zero_code (negsuc n) h = absurd cc

Agrees-ended :
    (now : ℕ) (exit : Option ℤ) (j : JobRecord)
    → Agrees (exit_report exit) (ended now (code_or exit) j)
unfolding exit_report
Agrees-ended now exit j = elim (Bool-cases (is_zero (code_or exit))) [
  | inl ok ↦ rw (exit_report, ended, ok) (refl, ap some (sym (zero_code (code_or exit) ok)))
  | inr bad ↦ rw (exit_report, ended, bad) (refl, refl)
]

-- Where a job is there and was not cancelled, the end of its process leaves a record with the state and
-- the exit code that the report gives, and a node that knows the job and takes over the report has a
-- record with these, and with the report's error.
pub finish_job-exit_report :
    (now now' : ℕ) (id : JobId) (exit : Option ℤ) (jobs origin : Jobs) (j k : JobRecord)
    → get id jobs ≡ some j
    → is_cancelled j.status ≡ false
    → get id origin ≡ some k
    → (j' : JobRecord) × (k' : JobRecord) × (origin' : Jobs) × (get id
          (end_job now id (exited exit) jobs)
        ≡ some j')
      × (apply_terminal_job_update now' id (outcome_report (exited exit)) origin ≡ some origin')
      × (get id origin' ≡ some k')
      × Agrees (outcome_report (exited exit)) j'
      × Agrees (outcome_report (exited exit)) k'
      × (k'.error ≡ (outcome_report (exited exit)).error)
unfolding end_job finish_job outcome_report apply_terminal_job_update
finish_job-exit_report now now' id exit jobs origin j k here on there =
    let r = exit_report exit in
    let j' = ended now (code_or exit) j in
    let k' = record k {
      status = r.status;
      exit_code = r.exit_code;
      error = r.error;
      updated_at = now';
    } in
    (
      j',
      k',
      insert id k' origin,
      rw (end_job, finish_job, here, on) (get-insert_self id j' jobs),
      rw (apply_terminal_job_update, there) refl,
      get-insert_self id k' origin,
      Agrees-ended now exit j,
      (refl, refl),
      refl,
    )

delete_job_lem :
    (now : ℕ) (id : JobId) (jobs : Jobs) (j : JobRecord)
    → get id jobs ≡ some j
    → is_finished j.status ≡ false
    → delete_job now (some id) jobs ≡ (
      deleted (record j { status = cancelled; updated_at = now }),
      insert id (record j { status = cancelled; updated_at = now }) jobs,
    )
unfolding delete_job
delete_job_lem now id jobs j here unfinished = rw (delete_job, here, unfinished) refl

-- A job that is there and not finished is cancelled by its deletion, and the end of its process, with
-- any exit code, then changes nothing.
pub finish_job-delete_job :
    (now now' : ℕ) (id : JobId) (exit : Option ℤ) (jobs : Jobs) (j : JobRecord)
    → get id jobs ≡ some j
    → is_finished j.status ≡ false
    → ((delete_job now (some id) jobs).0
        ≡ deleted (record j { status = cancelled; updated_at = now }))
      × (end_job now' id (exited exit) (delete_job now (some id) jobs).1
          ≡ (delete_job now (some id) jobs).1)
unfolding end_job finish_job
finish_job-delete_job now now' id exit jobs j here unfinished =
    let off = record j { status = cancelled; updated_at = now } in
    rw (delete_job_lem now id jobs j here unfinished)
      (refl, rw (end_job, finish_job, get-insert_self id off jobs) refl)

start_job_lem :
    (now : ℕ) (id : JobId) (jobs : Jobs) (j : JobRecord)
    → get id jobs ≡ some j
    → start_job now id jobs
      ≡ some (insert id (record j { status = running; updated_at = now }) jobs)
unfolding start_job
start_job_lem now id jobs j here = rw (start_job, here) refl

-- A job that is deleted before the executor starts it is started all the same: where its process then
-- ends with code 0 its record says that it is completed, not that it was cancelled.
pub started_after_deletion :
    (now : ℕ) (id : JobId) (jobs : Jobs) (j : JobRecord)
    → get id jobs ≡ some j
    → is_finished j.status ≡ false
    → (running_jobs : Jobs) × (j' : JobRecord) × (start_job now id (delete_job now (some id) jobs).1
        ≡ some running_jobs)
      × (get id (end_job now id (exited (some (pos 0))) running_jobs) ≡ some j')
      × (j'.status ≡ completed)
unfolding end_job finish_job
started_after_deletion now id jobs j here unfinished =
    let off = record j { status = cancelled; updated_at = now } in
    let on = record off { status = running } in
    let jobs' = insert id on (insert id off jobs) in
    (
      jobs',
      ended now (pos 0) on,
      ap (λ (x : Deletion × Jobs). start_job now id x.1)
            (delete_job_lem now id jobs j here unfinished)
          ∙ start_job_lem now id (insert id off jobs) off (get-insert_self id off jobs),
      rw (end_job, finish_job, get-insert_self id on (insert id off jobs))
          (get-insert_self id (ended now (pos 0) on) jobs'),
      refl,
    )
