-- ===== src/Raft/Machine/Batches.antt =====
-- How agent/src/raft/store.rs applies entries: the bookkeeping of a batch, and refusals.
use all4one.Prelude.{
  ℕ, suc, ◌+◌, ◌≡◌, refl, ap, false, Option, some, List, [], ◌∷◌, ◌++◌, Text, length, nat_eq,
  list_eq, arith,
}
use all4one.Raft.Commands.{RaftCommand, register_job, update_job_status, RaftCommandResponse}
use all4one.Raft.Machine.{
  LogId, StoredMembership, RaftState, Entry, EntryPayload, blank, normal, membership_change,
  apply_command, apply_payload, apply_entry, apply_entries,
}

module _ {Membership : Type 0} where
  -- The id of the last entry of a batch, or `before` if the batch is empty.
  abbrev pub last_id : Option LogId → List (Entry Membership) → Option LogId
  last_id before [] = before
  last_id before (e ∷ es) = last_id (some e.log_id) es

  -- The last membership change of a batch, under the id of its entry.
  abbrev pub entry_membership :
      StoredMembership Membership → LogId → EntryPayload Membership → StoredMembership Membership
  entry_membership before i blank = before
  entry_membership before i (normal cmd) = before
  entry_membership before i (membership_change m) = record { log_id = some i; membership = m }

  abbrev pub last_change :
      StoredMembership Membership → List (Entry Membership) → StoredMembership Membership
  last_change before [] = before
  last_change before (e ∷ es) = last_change (entry_membership before e.log_id e.entry_payload) es

  command_leaves :
      (now : Text) (cmd : RaftCommand) (s : RaftState Membership)
      → ((apply_command now cmd s).1.last_applied ≡ s.last_applied)
        × ((apply_command now cmd s).1.last_membership ≡ s.last_membership)
  unfolding apply_command
  command_leaves now (register_job j n r c) s = ground arith
  command_leaves now (update_job_status j u n) s = ground arith
  command_leaves now _ s = ground arith

  entry_bookkeeping :
      (now : Text) (e : Entry Membership) (s : RaftState Membership)
      → ((apply_entry now e s).1.last_applied ≡ some e.log_id)
        × ((apply_entry now e s).1.last_membership
            ≡ entry_membership s.last_membership e.log_id e.entry_payload)
  unfolding apply_entry
  entry_bookkeeping now e s = payload_bookkeeping e.log_id e.entry_payload
    where
      payload_bookkeeping :
          (i : LogId) (p : EntryPayload Membership)
          → ((apply_payload now i p (record s { last_applied = some i })).1.last_applied ≡ some i)
            × ((apply_payload now i p (record s { last_applied = some i })).1.last_membership
                ≡ entry_membership s.last_membership i p)
      payload_bookkeeping i blank = (refl, refl)
      payload_bookkeeping i (normal cmd) =
          command_leaves now cmd (record s { last_applied = some i })
      payload_bookkeeping i (membership_change m) = (refl, refl)

  -- A batch has one answer for each entry, in `last_applied` the id of its last entry, and in
  -- `last_membership` its last membership change; an empty batch leaves both as they were.
  pub apply_bookkeeping :
      (clock : ℕ → Text) (n : ℕ) (es : List (Entry Membership)) (s : RaftState Membership)
      → (length (apply_entries clock n es s).0 ≡ length es)
        × ((apply_entries clock n es s).1.last_applied ≡ last_id s.last_applied es)
        × ((apply_entries clock n es s).1.last_membership ≡ last_change s.last_membership es)
  unfolding apply_entries
  apply_bookkeeping clock n [] s = (refl, refl, refl)
  apply_bookkeeping clock n (e ∷ es) s =
      let (a, m) = entry_bookkeeping (clock n) e s in
      let (l, x, y) = apply_bookkeeping clock (suc n) es (apply_entry (clock n) e s).1 in
      (ap suc l, rw a at x, rw m at y)

  -- Two batches, one after the other, give the answers and the state of the one batch of both.
  pub apply-append :
      (clock : ℕ → Text) (n : ℕ) (es fs : List (Entry Membership)) (s : RaftState Membership)
      → let first = apply_entries clock n es s in
        let second = apply_entries clock (length es + n) fs first.1 in
        apply_entries clock n (es ++ fs) s ≡ (first.0 ++ second.0, second.1)
  unfolding apply_entries
  apply-append clock n [] fs s = let at_start : 0 + n ≡ n = omega arith in rw at_start refl
  apply-append clock n (e ∷ es) fs s =
      let later : suc (length es) + n ≡ length es + suc n = omega arith in
      rw later (
        ap
          (λ (r : List RaftCommandResponse × RaftState Membership).
            ((apply_entry (clock n) e s).0 ∷ r.0, r.1))
          (apply-append clock (suc n) es fs (apply_entry (clock n) e s).1))

  -- A command that is refused leaves the state as it was.
  pub refused_changes_nothing :
      (now : Text) (cmd : RaftCommand) (s : RaftState Membership)
      → (apply_command now cmd s).0.success ≡ false
      → (apply_command now cmd s).1 ≡ s
  unfolding apply_command
  refused_changes_nothing now (register_job j n r c) s h = ground arith
  refused_changes_nothing now (update_job_status j u n) s h = ground arith
  refused_changes_nothing now _ s h = ground arith
