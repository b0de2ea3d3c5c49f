-- ===== src/Raft/Machine.antt =====
-- agent/src/raft/store.rs, the state machine: how a committed log entry changes the state.
-- `Membership` is openraft's, and a section's parameter. `Utc::now()` is read once for each entry:
-- `clock n` is the reading at the n-th entry.
pub mod Jobs
pub mod Tokens
pub mod Replicas
pub mod Batches
use all4one.Prelude.{
  ℕ, suc, true, false, Option, none, some, List, [], ◌∷◌, ◌++◌, Text, codes, Map, get, insert,
  contains_key, nat_eq, list_eq, if◌then◌else◌,
}
use all4one.Common.{NodeId}
use all4one.Raft.Commands.{
  RaftCommand, register_job, update_job_status, add_member, remove_member, store_enroll_token,
  consume_enroll_token, RaftCommandResponse, RegisteredJob, EnrollToken, accepted, refused,
}

-- openraft's id of a log entry: the term and the node of its leader, and its index.
pub record LogId : Type 0 where
  pub term : ℕ
  pub leader : NodeId
  pub index : ℕ

pub record StoredMembership (Membership : Type 0) : Type 0 where
  pub log_id : Option LogId
  pub membership : Membership

pub record RaftState (Membership : Type 0) : Type 0 where
  pub last_applied : Option LogId
  pub last_membership : StoredMembership Membership
  pub job_registry : Map Text RegisteredJob
  pub enroll_tokens : Map Text EnrollToken

pub data EntryPayload (Membership : Type 0) : Type 0 where
  blank : EntryPayload Membership
  normal : RaftCommand → EntryPayload Membership
  membership_change : Membership → EntryPayload Membership

pub record Entry (Membership : Type 0) : Type 0 where
  pub log_id : LogId
  pub entry_payload : EntryPayload Membership

abbrev new_job : Text → Text → Text → Text → RegisteredJob
new_job job_id node_id runtime created_at = record {
  job_id = job_id;
  node_id = node_id;
  runtime = runtime;
  status = codes "queued";
  created_at = created_at;
  updated_at = created_at;
}

module _ {Membership : Type 0} where
  -- `SledStateMachine::apply_command`, at the clock reading `now`.
  unfoldable pub apply_command :
      Text → RaftCommand → RaftState Membership → RaftCommandResponse × RaftState Membership
  apply_command now (register_job job_id node_id runtime created_at) s =
      if contains_key job_id s.job_registry then (refused (codes "already registered"), s) else (
        accepted,
        record s {
          job_registry = insert job_id (new_job job_id node_id runtime created_at) s.job_registry;
        },
      )
  apply_command now (update_job_status job_id status node_id) s = elim (get job_id s.job_registry) [
    | some job ↦ (
      accepted,
      record s {
        job_registry =
            insert job_id (record job { status = status; updated_at = now }) s.job_registry;
      },
    )
    | none ↦ (refused (codes "job " ++ (job_id ++ codes " not found")), s)
  ]
  apply_command now (add_member node_id grpc_endpoint) s = (accepted, s)
  apply_command now (remove_member node_id) s = (accepted, s)
  apply_command now (store_enroll_token token expires_at issued_by) s = (
    accepted,
    record s {
      enroll_tokens =
          insert token
            (record { token = token; issued_by = issued_by; expires_at = expires_at; used = false })
            s.enroll_tokens;
    },
  )
  apply_command now (consume_enroll_token token) s = elim (get token s.enroll_tokens) [
    | some t ↦ if t.used then (refused (codes "token already used"), s) else (
      accepted,
      record s { enroll_tokens = insert token (record t { used = true }) s.enroll_tokens },
    )
    | none ↦ (refused (codes "token not found"), s)
  ]

  abbrev apply_payload :
      Text
      → LogId
      → EntryPayload Membership
      → RaftState Membership
      → RaftCommandResponse × RaftState Membership
  apply_payload now id blank s = (accepted, s)
  apply_payload now id (normal cmd) s = apply_command now cmd s
  apply_payload now id (membership_change m) s =
      (accepted, record s { last_membership = record { log_id = some id; membership = m } })

  -- One round of the loop of `RaftStateMachine::apply`.
  unfoldable pub apply_entry :
      Text → Entry Membership → RaftState Membership → RaftCommandResponse × RaftState Membership
  apply_entry now e s =
      apply_payload now e.log_id e.entry_payload (record s { last_applied = some e.log_id })

  -- The loop of `RaftStateMachine::apply`; `n` counts the readings of the clock.
  unfoldable pub apply_entries :
      (clock : ℕ → Text)
      → ℕ
      → List (Entry Membership)
      → RaftState Membership
      → List RaftCommandResponse × RaftState Membership
  apply_entries clock n [] s = ([], s)
  apply_entries clock n (e ∷ es) s =
      let (resp, s') = apply_entry (clock n) e s in
      let (responses, t) = apply_entries clock (suc n) es s' in (resp ∷ responses, t)
