-- ===== src/Raft/Snapshot/Recovery.antt =====
-- What survives a restart, and what a snapshot carries over (agent/src/raft/store.rs).
use all4one.Prelude.{
  ℕ, ◌+◌, ◌≡◌, refl, sym, ap, ◌∙◌, subst, some, List, ◌++◌, Text, Bytes, length, Result, ok, nat_eq,
  list_eq,
}
use all4one.Raft.Machine.{RaftState, Entry, apply_entries}
use all4one.Raft.Machine.Replicas.{SameView, replicas_agree}
use all4one.Raft.Machine.Batches.{apply-append}
use all4one.Raft.Snapshot.{
  Snapshot, MachineDeps, default_tree, state_key, SledStateMachine, open_machine, apply,
  build_snapshot, install_snapshot, load,
}

ok-injective {ℓ κ} :
    {E : Type ℓ} {A : Type κ} {x y : A} → ◌≡◌ {A = Result E A} (ok x) (ok y) → x ≡ y
ok-injective h = cc

module _ {Membership : Type 0} (deps : MachineDeps Membership) where
  open deps use {sled, state_json, default_state}
  open sled use {Db, tree_get, tree_insert, get-tree_insert}

  load-insert :
      (s : RaftState Membership) (b : Bytes) (d : Db)
      → state_json.to_vec s ≡ some b
      → load deps (tree_get default_tree state_key (tree_insert default_tree state_key b d)) ≡ s
  load-insert s b d written =
      rw
        (
          get-tree_insert default_tree default_tree state_key state_key b d,
          state_json.from_slice-to_vec s b written,
        )
        refl

  reopened :
      (s : RaftState Membership) (b : Bytes) (d : Db)
      → state_json.to_vec s ≡ some b
      → open_machine deps (tree_insert default_tree state_key b d)
        ≡ record { db = tree_insert default_tree state_key b d; state = s }
  unfolding open_machine
  reopened s b d written =
      ap {B = SledStateMachine deps}
        (λ t. record { db = tree_insert default_tree state_key b d; state = t })
        (load-insert s b d written)

  -- Where the state that entries lead to can be written, `apply` succeeds with the answers to the
  -- entries, and the machine that is opened from the database afterwards is the machine it leaves.
  pub restart-apply :
      (clock : ℕ → Text) (entries : List (Entry Membership)) (m : SledStateMachine deps) (b : Bytes)
      → state_json.to_vec (apply_entries clock 0 entries m.state).1 ≡ some b
      → ((apply deps clock entries m).0 ≡ ok (apply_entries clock 0 entries m.state).0)
        × ((apply deps clock entries m).1.state ≡ (apply_entries clock 0 entries m.state).1)
        × (open_machine deps (apply deps clock entries m).1.db ≡ (apply deps clock entries m).1)
  unfolding apply
  restart-apply clock entries m b written =
      let s = (apply_entries clock 0 entries m.state).1 in
      rw written (refl, refl, reopened s b m.db written)

  -- Installing the snapshot of a state that can be written succeeds on any machine: the machine then
  -- has that state, and so has the machine that is opened from its database.
  pub install-build_snapshot :
      (id : Text) (s : RaftState Membership) (b : Bytes) (m : SledStateMachine deps)
      → state_json.to_vec s ≡ some b
      → (snap : Snapshot Membership) × (build_snapshot deps id s ≡ ok snap)
        × ((install_snapshot deps snap.meta snap.contents m).0 ≡ ok tt)
        × ((install_snapshot deps snap.meta snap.contents m).1.state ≡ s)
        × (open_machine deps (install_snapshot deps snap.meta snap.contents m).1.db
            ≡ (install_snapshot deps snap.meta snap.contents m).1)
  unfolding build_snapshot install_snapshot
  install-build_snapshot id s b m written = (
    record {
      meta = record {
        last_log_id = s.last_applied;
        last_membership = s.last_membership;
        snapshot_id = id;
      };
      contents = b;
    },
    rw (written, build_snapshot),
    rw (state_json.from_slice-to_vec s b written, written),
    rw (state_json.from_slice-to_vec s b written, written),
    rw (state_json.from_slice-to_vec s b written, written) (reopened s b m.db written),
  )

  -- A replica that starts from another's snapshot, of a state that can be written, and applies the
  -- entries after it answers them as the other did, and ends with the same state, times of update
  -- aside: entries up to a snapshot may be replaced by the snapshot, whatever the replica's machine
  -- held before.
  pub snapshot_replaces_entries :
      (clock clock' : ℕ → Text) (n : ℕ) (es fs : List (Entry Membership)) (s : RaftState Membership)
      (id : Text) (b : Bytes) (m : SledStateMachine deps) (snap : Snapshot Membership)
      → state_json.to_vec (apply_entries clock 0 es s).1 ≡ some b
      → build_snapshot deps id (apply_entries clock 0 es s).1 ≡ ok snap
      → let whole = apply_entries clock 0 (es ++ fs) s in
        let installed = (install_snapshot deps snap.meta snap.contents m).1.state in
        let caught_up = apply_entries clock' n fs installed in
        (whole.0 ≡ (apply_entries clock 0 es s).0 ++ caught_up.0) × SameView whole.1 caught_up.1
  snapshot_replaces_entries clock clock' n es fs s id b m snap written built =
      let t = (apply_entries clock 0 es s).1 in
      let (made, eq, done, state, again) = install-build_snapshot id t b m written in
      let same : (install_snapshot deps snap.meta snap.contents m).1.state ≡ t =
        subst (λ (x : Snapshot Membership). (install_snapshot deps x.meta x.contents m).1.state ≡ t)
          (ok-injective (sym eq ∙ built)) state in
      let (r, v) = replicas_agree clock clock' (length es + 0) n fs t t refl in
      rw (apply-append clock 0 es fs s, same) (ap (λ rs. (apply_entries clock 0 es s).0 ++ rs) r, v)
