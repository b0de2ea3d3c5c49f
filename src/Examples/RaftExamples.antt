-- ===== src/Examples/RaftExamples.antt =====
-- The properties of the state machine of agent/src/raft/store.rs at small logs.
use all4one.Prelude.{
  ℕ, ◌+◌, ◌≡◌, ◌≢◌, refl, false, some, List, [], ◌∷◌, ◌++◌, codes, get, nat_eq, list_eq, Bytes,
  arith, ok,
}
use all4one.Raft.Commands.{
  RaftCommand, register_job, update_job_status, consume_enroll_token, RegisteredJob, EnrollToken,
}
use all4one.Raft.Machine.{RaftState, Entry, normal, apply_command, apply_entry, apply_entries}
use all4one.Raft.Machine.Jobs.{first_registration_wins, KeepsRegistration}
use all4one.Raft.Machine.Tokens.{consumed-uses_left, consumed, uses_left}
use all4one.Raft.Machine.Replicas.{replicas_agree, replicas_differ, SameView}
use all4one.External.SledModel.{cell_db}
use all4one.Raft.Snapshot.{
  SledStateMachine, Snapshot, open_machine, apply, build_snapshot, install_snapshot,
}
use all4one.Raft.Snapshot.Recovery.{
  restart-apply, install-build_snapshot, snapshot_replaces_entries,
}
use all4one.Examples.{id_at, blank_at, change_at, clock}
use all4one.Examples.Stored.{machine_deps, fresh_state}

abbrev command_at : ℕ → RaftCommand → Entry ℕ
command_at i c = record { log_id = id_at i; entry_payload = normal c }

abbrev job_log : List (Entry ℕ)
job_log =
    command_at 1 (register_job (codes "j1") (codes "n1") (codes "docker") (codes "t0"))
    ∷ command_at 2 (register_job (codes "j1") (codes "n2") (codes "wasm") (codes "t1"))
    ∷ command_at 3 (update_job_status (codes "j1") (codes "running") (codes "n1"))
    ∷ []

abbrev one_job : RegisteredJob
one_job = record {
  job_id = codes "j1";
  node_id = codes "n1";
  runtime = codes "docker";
  status = codes "queued";
  created_at = codes "t0";
  updated_at = codes "t0";
}

abbrev with_job : RaftState ℕ
with_job = record fresh_state { job_registry = (codes "j1", one_job) ∷ [] }

abbrev fresh_token : EnrollToken
fresh_token = record {
  token = codes "tok";
  issued_by = codes "admin";
  expires_at = codes "t9";
  used = false;
}

abbrev with_token : RaftState ℕ
with_token = record fresh_state { enroll_tokens = (codes "tok", fresh_token) ∷ [] }

abbrev two_consumes : List (Entry ℕ)
two_consumes =
    command_at 1 (consume_enroll_token (codes "tok"))
    ∷ command_at 2 (consume_enroll_token (codes "tok"))
    ∷ []

first_registration_wins_example :
    KeepsRegistration
      (get (codes "j1") with_job.job_registry)
      (get (codes "j1") (apply_entries clock 0 job_log with_job).1.job_registry)
first_registration_wins_example = first_registration_wins clock 0 job_log with_job (codes "j1")

replicas_agree_example :
    ((apply_entries clock 0 job_log fresh_state).0
      ≡ (apply_entries (λ n. codes "later") 5 job_log fresh_state).0)
    × SameView
        (apply_entries clock 0 job_log fresh_state).1
        (apply_entries (λ n. codes "later") 5 job_log fresh_state).1
replicas_agree_example =
    replicas_agree clock (λ n. codes "later") 0 5 job_log fresh_state fresh_state refl

consumed-uses_left_example :
    consumed (codes "tok") two_consumes (apply_entries clock 0 two_consumes with_token).0
      + uses_left (codes "tok") (apply_entries clock 0 two_consumes with_token).1
    ≡ uses_left (codes "tok") with_token
consumed-uses_left_example =
    consumed-uses_left clock 0 two_consumes with_token (codes "tok") (refl, (refl, tt))

replicas_differ_example :
    (apply_command
      (codes "t1")
      (update_job_status (codes "j1") (codes "done") (codes "n1"))
      with_job).1
    ≢ (apply_command
        (codes "t2")
        (update_job_status (codes "j1") (codes "done") (codes "n1"))
        with_job).1
unfolding get
replicas_differ_example =
    replicas_differ (codes "t1") (codes "t2") (codes "j1") (codes "done") (codes "n1") with_job
      one_job refl apart
  where
    apart : codes "t1" ≢ codes "t2"
    apart e = absurd (ground (arith, e))

abbrev machine : SledStateMachine machine_deps
machine = record { db = cell_db.empty; state = fresh_state }

abbrev two_blanks : List (Entry ℕ)
two_blanks = blank_at 1 ∷ blank_at 2 ∷ []

restart-apply_example :
    ((apply machine_deps clock two_blanks machine).0
      ≡ ok (apply_entries clock 0 two_blanks fresh_state).0)
    × ((apply machine_deps clock two_blanks machine).1.state
        ≡ (apply_entries clock 0 two_blanks fresh_state).1)
    × (open_machine machine_deps (apply machine_deps clock two_blanks machine).1.db
        ≡ (apply machine_deps clock two_blanks machine).1)
unfolding apply_entries apply_entry
restart-apply_example =
    restart-apply machine_deps clock two_blanks machine (0 ∷ 1 ∷ 7 ∷ 2 ∷ []) refl

abbrev one_blank : RaftState ℕ
one_blank = record fresh_state { last_applied = some (id_at 1) }

abbrev one_blank_bytes : Bytes
one_blank_bytes = 0 ∷ 1 ∷ 7 ∷ 1 ∷ []

install-build_snapshot_example :
    (snap : Snapshot ℕ) × (build_snapshot machine_deps (codes "s1") one_blank ≡ ok snap)
    × ((install_snapshot machine_deps snap.meta snap.contents machine).0 ≡ ok tt)
    × ((install_snapshot machine_deps snap.meta snap.contents machine).1.state ≡ one_blank)
    × (open_machine machine_deps
          (install_snapshot machine_deps snap.meta snap.contents machine).1.db
        ≡ (install_snapshot machine_deps snap.meta snap.contents machine).1)
install-build_snapshot_example =
    install-build_snapshot machine_deps (codes "s1") one_blank one_blank_bytes machine refl

abbrev one_snapshot : Snapshot ℕ
one_snapshot = record {
  meta = record {
    last_log_id = some (id_at 1);
    last_membership = fresh_state.last_membership;
    snapshot_id = codes "s1";
  };
  contents = one_blank_bytes;
}

snapshot_replaces_entries_example :
    let whole = apply_entries clock 0 (blank_at 1 ∷ change_at 2 5 ∷ []) fresh_state in
    let installed =
      (install_snapshot machine_deps one_snapshot.meta one_snapshot.contents machine).1.state in
    let caught_up = apply_entries (λ n. codes "later") 3 (change_at 2 5 ∷ []) installed in
    (whole.0 ≡ (apply_entries clock 0 (blank_at 1 ∷ []) fresh_state).0 ++ caught_up.0)
    × SameView whole.1 caught_up.1
unfolding apply_entries apply_entry build_snapshot
snapshot_replaces_entries_example =
    snapshot_replaces_entries machine_deps clock (λ n. codes "later") 3 (blank_at 1 ∷ [])
      (change_at 2 5 ∷ []) fresh_state (codes "s1") one_blank_bytes machine one_snapshot refl refl
