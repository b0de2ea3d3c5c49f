-- ===== src/Raft/Commands.antt =====
-- agent/src/raft/commands.rs: the commands of the replicated log, the answers, and the records kept.
use all4one.Prelude.{Bool, true, false, Option, none, some, Text}

pub data RaftCommand : Type 0 where
  register_job : (job_id node_id runtime created_at : Text) → RaftCommand
  update_job_status : (job_id status node_id : Text) → RaftCommand
  add_member : (node_id grpc_endpoint : Text) → RaftCommand
  remove_member : (node_id : Text) → RaftCommand
  store_enroll_token : (token expires_at issued_by : Text) → RaftCommand
  consume_enroll_token : (token : Text) → RaftCommand

pub record RaftCommandResponse : Type 0 where
  pub success : Bool
  pub error : Option Text
  pub payload : Option Text

pub record RegisteredJob : Type 0 where
  pub job_id : Text
  pub node_id : Text
  pub runtime : Text
  pub status : Text
  pub created_at : Text
  pub updated_at : Text

pub record EnrollToken : Type 0 where
  pub token : Text
  pub issued_by : Text
  pub expires_at : Text
  pub used : Bool

-- The two shapes of answer that the state machine builds.
abbrev pub accepted : RaftCommandResponse
accepted = record { success = true; error = none; payload = none }

abbrev pub refused : Text → RaftCommandResponse
refused why = record { success = false; error = some why; payload = none }
