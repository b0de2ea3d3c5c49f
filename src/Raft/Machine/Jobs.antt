-- ===== src/Raft/Machine/Jobs.antt =====
-- The job registry of agent/src/raft/store.rs under the commands of the log.
use all4one.Prelude.{
  ℕ, suc, ◌≡◌, refl, inl, inr, Option, none, some, List, [], ◌∷◌, Text, get, nat_eq, list_eq,
  list_beq_iff, get-insert, arith, Option-cases,
}
use all4one.Raft.Commands.{
  RaftCommand, register_job, update_job_status, add_member, remove_member, store_enroll_token,
  consume_enroll_token, RegisteredJob,
}
use all4one.Raft.Machine.{
  LogId, RaftState, Entry, EntryPayload, blank, normal, membership_change, new_job, apply_command,
  apply_payload, apply_entry, apply_entries,
}

-- What a registration fixes for good: a registered job stays, and only its status and the time of
-- its last update may change.
abbrev pub KeepsRegistration : Option RegisteredJob → Option RegisteredJob → Type 0
KeepsRegistration none after = Unit
KeepsRegistration (some j) none = ⊥
KeepsRegistration (some j) (some k) =
    (j.job_id ≡ k.job_id)
    × (j.node_id ≡ k.node_id)
    × (j.runtime ≡ k.runtime)
    × (j.created_at ≡ k.created_at)

KeepsRegistration-refl : (o : Option RegisteredJob) → KeepsRegistration o o
KeepsRegistration-refl none = tt
KeepsRegistration-refl (some j) = (refl, refl, refl, refl)

KeepsRegistration-trans :
    (a b c : Option RegisteredJob)
    → KeepsRegistration a b
    → KeepsRegistration b c
    → KeepsRegistration a c
KeepsRegistration-trans none b c h k = tt
KeepsRegistration-trans (some a) none c h k = absurd h
KeepsRegistration-trans (some a) (some b) none h k = absurd k
KeepsRegistration-trans (some a) (some b) (some c) h k = ground arith

module _ {Membership : Type 0} where
  command_keeps :
      (now : Text) (cmd : RaftCommand) (s : RaftState Membership) (id : Text)
      → KeepsRegistration (get id s.job_registry) (get id (apply_command now cmd s).1.job_registry)
  unfolding apply_command
  command_keeps now (register_job job_id node_id runtime created_at) s id = ground (
    arith,
    get-insert job_id id (new_job job_id node_id runtime created_at) s.job_registry,
    list_beq_iff job_id id,
  )
  command_keeps now (update_job_status job_id status node_id) s id =
      elim (Option-cases (get job_id s.job_registry)) [
        | inl e ↦ rw (e, apply_command) (KeepsRegistration-refl _)
        | inr (j, e) ↦ ground (
          arith,
          get-insert job_id id (record j { status = status; updated_at = now }) s.job_registry,
          list_beq_iff job_id id,
        )
      ]
  command_keeps now (add_member n g) s id = KeepsRegistration-refl _
  command_keeps now (remove_member n) s id = KeepsRegistration-refl _
  command_keeps now (store_enroll_token t e i) s id = KeepsRegistration-refl _
  command_keeps now (consume_enroll_token t) s id = grind (arith, KeepsRegistration-refl)

  payload_keeps :
      (now : Text) (i : LogId) (p : EntryPayload Membership) (s : RaftState Membership) (id : Text)
      → KeepsRegistration
          (get id s.job_registry)
          (get id (apply_payload now i p (record s { last_applied = some i })).1.job_registry)
  payload_keeps now i blank s id = KeepsRegistration-refl _
  payload_keeps now i (normal cmd) s id =
      command_keeps now cmd (record s { last_applied = some i }) id
  payload_keeps now i (membership_change m) s id = KeepsRegistration-refl _

  entry_keeps :
      (now : Text) (e : Entry Membership) (s : RaftState Membership) (id : Text)
      → KeepsRegistration (get id s.job_registry) (get id (apply_entry now e s).1.job_registry)
  unfolding apply_entry
  entry_keeps now e s id = payload_keeps now e.log_id e.entry_payload s id

  -- Whatever is applied, a registered job stays registered, on the node, with the runtime and the
  -- creation time that its first registration gave it.
  pub first_registration_wins :
      (clock : ℕ → Text) (n : ℕ) (es : List (Entry Membership)) (s : RaftState Membership)
      (id : Text)
      → KeepsRegistration
          (get id s.job_registry)
          (get id (apply_entries clock n es s).1.job_registry)
  unfolding apply_entries
  first_registration_wins clock n [] s id = KeepsRegistration-refl _
  first_registration_wins clock n (e ∷ es) s id =
      KeepsRegistration-trans _ _ _ (entry_keeps (clock n) e s id)
        (first_registration_wins clock (suc n) es (apply_entry (clock n) e s).1 id)
