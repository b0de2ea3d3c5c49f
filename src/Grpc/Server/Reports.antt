-- ===== src/Grpc/Server/Reports.antt =====
-- agent/src/grpc_client/mod.rs and agent/src/grpc_server/mod.rs: the report of a job's end, from the
-- executor to the node that the job came from.
use all4one.Prelude.{
  ℕ, ◌≡◌, refl, ap, false, Option, none, some, ◌∷◌, ◌++◌, Text, codes, is_blank, is_blank-false,
  is_whitespace, ok, nat_eq, inl, inr, Bool-cases,
}
use all4one.Common.{JobId, NodeId, Uuid, failed}
use all4one.Jobs.Records.{ℤ, pos, Jobs, apply_terminal_job_update}
use all4one.Jobs.Conversions.{job_status_from_string, job_status_to_string}
use all4one.Jobs.Executor.{
  Outcome, spawn_failed, exited, wait_failed, code_or, is_zero, outcome_report, exit_report,
  failure_report,
}
use all4one.Grpc.Messages.{report_message}
use all4one.Grpc.Server.{report_of, reported_code, report_job_status}

-- A report is read back if it is of a state whose code survives, and its error is not blank.
report_of_failure :
    (c : ℕ) (t : Text)
    → is_whitespace c ≡ false
    → (code : Option ℤ) (exit : ℤ) (job_id node : Text) → reported_code failed exit ≡ code
    → report_of (record {
      job_id = job_id;
      status = job_status_to_string failed;
      exit_code = exit;
      error = c ∷ t;
      source_node_id = node;
    })
      ≡ record { status = failed; exit_code = code; error = some (c ∷ t) }
unfolding job_status_to_string job_status_from_string
report_of_failure c t solid code exit job_id node same =
    rw (is_blank-false c t solid)
      (ap (λ k. record { status = failed; exit_code = k; error = some (c ∷ t) }) same)

module _ (to_string : Uuid → Text) (id : JobId) (node : NodeId) where
  -- The server reads the report that the executor sent.
  report_of-report_message :
      (o : Outcome)
      → report_of (report_message to_string id (outcome_report o) node) ≡ outcome_report o
  unfolding outcome_report exit_report failure_report job_status_from_string job_status_to_string
      is_whitespace is_blank
  report_of-report_message (spawn_failed e) =
      report_of_failure b's' (codes "pawn failed: " ++ e) refl none (pos 0) (to_string id)
        (to_string node) refl
  report_of-report_message (exited exit) = elim (Bool-cases (is_zero (code_or exit))) [
    | inl zero_exit ↦ rw (exit_report, zero_exit) refl
    | inr bad ↦
        rw (exit_report, bad)
          (report_of_failure b'p' _ refl (some (code_or exit)) (code_or exit) (to_string id)
            (to_string node) (rw bad refl))
  ]
  report_of-report_message (wait_failed e) =
      report_of_failure b'w' (codes "ait failed: " ++ e) refl none (pos 0) (to_string id)
        (to_string node) refl

  -- The end of a job arrives as it was: a node that knows a job and is sent the report of how the job's
  -- process ended, over the wire, answers with success, and its jobs are as if it had been given the
  -- executor's own report, its state, exit code and error.
  pub report_round_trip :
      (parse_str : Text → Option Uuid) (to_rfc3339 : ℕ → Text) (now : ℕ) (o : Outcome)
      (origin reported : Jobs)
      → parse_str (to_string id) ≡ some id
      → apply_terminal_job_update now id (outcome_report o) origin ≡ some reported
      → (report_job_status to_string parse_str to_rfc3339 now
          (report_message to_string id (outcome_report o) node)
          origin).0
        ≡ (ok tt, reported)
  unfolding report_job_status
  report_round_trip parse_str to_rfc3339 now o origin reported parsed applied =
      rw (report_job_status, parsed) (rw (report_of-report_message o, applied) refl)
