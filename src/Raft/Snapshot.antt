-- ===== src/Raft/Snapshot.antt =====
-- agent/src/raft/store.rs, the persistent state machine: `SledStateMachine` with its snapshots. An
-- operation returns its result and the machine, which may have changed before an error.
pub mod Recovery
use all4one.Prelude.{
  ℕ, Bool, true, false, ◌||◌, Option, none, some, List, Text, Bytes, codes, Result, ok, err, nat_eq,
  list_eq, ◌==◌, if◌then◌else◌,
}
use all4one.External.Sled.{Sled}
use all4one.External.Serde.{Serde}
use all4one.Raft.Commands.{RaftCommandResponse}
use all4one.Raft.Machine.{LogId, StoredMembership, RaftState, Entry, apply_entries}
use all4one.Raft.Log.{StorageError, sm_read_err, sm_write_err}

pub record SnapshotMeta (Membership : Type 0) : Type 0 where
  pub last_log_id : Option LogId
  pub last_membership : StoredMembership Membership
  pub snapshot_id : Text

pub record Snapshot (Membership : Type 0) : Type 0 where
  pub meta : SnapshotMeta Membership
  pub contents : Bytes

-- What the machine uses of sled, of serde_json and of openraft's `Default`.
pub record MachineDeps (Membership : Type 0) : Type 1 where
  pub sled : Sled
  pub state_json : Serde (RaftState Membership)
  pub default_state : RaftState Membership

-- sled's own tree, which `db.get` and `db.insert` go to.
abbrev pub default_tree : Text
default_tree = codes "__sled__default"

abbrev pub state_key : Bytes
state_key = codes "state"

module _ {Membership : Type 0} (deps : MachineDeps Membership) where
  open deps use {sled, state_json, default_state}
  open sled use {Db, tree_get, tree_insert}

  pub record SledStateMachine : Type 0 where
    pub db : Db
    pub state : RaftState Membership

  abbrev pub applied_state :
      SledStateMachine → Result StorageError (Option LogId × StoredMembership Membership)
  applied_state m = ok (m.state.last_applied, m.state.last_membership)

  abbrev or_default : Option (RaftState Membership) → RaftState Membership
  or_default none = default_state
  or_default (some s) = s

  abbrev load : Option Bytes → RaftState Membership
  load none = default_state
  load (some b) = or_default (state_json.from_slice b)

  pub open_machine : Db → SledStateMachine
  open_machine d = record { db = d; state = load (tree_get default_tree state_key d) }

  -- The end of `apply` and of `install_snapshot`: the state is written to the database.
  abbrev persist {ℓ} :
      {A : Type ℓ} → A → Option Bytes → SledStateMachine → Result StorageError A × SledStateMachine
  persist a none m = (err sm_write_err, m)
  persist a (some b) m = (ok a, record m { db = tree_insert default_tree state_key b m.db })

  pub apply :
      (clock : ℕ → Text)
      → List (Entry Membership)
      → SledStateMachine
      → Result StorageError (List RaftCommandResponse) × SledStateMachine
  apply clock entries m =
      let (responses, s) = apply_entries clock 0 entries m.state in
      persist responses (state_json.to_vec s) (record m { state = s })

  -- `build_snapshot`, with the fresh id that it draws.
  unfoldable pub build_snapshot :
      Text → RaftState Membership → Result StorageError (Snapshot Membership)
  build_snapshot snapshot_id s = elim (state_json.to_vec s) [
    | none ↦ err sm_write_err
    | some b ↦ ok (record {
      meta = record {
        last_log_id = s.last_applied;
        last_membership = s.last_membership;
        snapshot_id = snapshot_id;
      };
      contents = b;
    })
  ]

  abbrev install_state :
      SnapshotMeta Membership
      → Option (RaftState Membership)
      → SledStateMachine
      → Result StorageError (Unit {0}) × SledStateMachine
  install_state meta none m = (err sm_write_err, m)
  install_state meta (some s) m =
      let s' = record s {
        last_applied = meta.last_log_id;
        last_membership = meta.last_membership;
      } in
      persist tt (state_json.to_vec s') (record m { state = s' })

  pub install_snapshot :
      SnapshotMeta Membership
      → Bytes
      → SledStateMachine
      → Result StorageError (Unit {0}) × SledStateMachine
  install_snapshot meta contents m = install_state meta (state_json.from_slice contents) m

  abbrev is_none : Option LogId → Bool
  is_none none = true
  is_none (some i) = false

  pub get_current_snapshot :
      RaftState Membership → Result StorageError (Option (Snapshot Membership))
  get_current_snapshot s = elim (state_json.to_vec s) [
    | none ↦ err sm_read_err
    | some b ↦
        if b == codes "null" || is_none s.last_applied
        then ok none
        else ok (
            some (record {
              meta = record {
                last_log_id = s.last_applied;
                last_membership = s.last_membership;
                snapshot_id = codes "latest";
              };
              contents = b;
            }))
  ]
