-- ===== src/Raft/Machine/Tokens.antt =====
-- Enrolment tokens of agent/src/raft/store.rs: how often a stored token can be consumed.
use all4one.Prelude.{
  ℕ, suc, ◌+◌, ◌≡◌, Bool, true, false, ◌&&◌, inl, inr, Option, none, some, List, [], ◌∷◌, Text, get,
  nat_eq, list_eq, list_beq_iff, get-insert, get-insert_self, arith, Option-cases, ◌==◌,
  if◌then◌else◌,
}
use all4one.Raft.Commands.{
  RaftCommand, register_job, update_job_status, add_member, remove_member, store_enroll_token,
  consume_enroll_token, RaftCommandResponse, EnrollToken, accepted,
}
use all4one.Raft.Machine.{
  LogId, RaftState, Entry, EntryPayload, blank, normal, membership_change, apply_command,
  apply_payload, apply_entry, apply_entries,
}

-- Does the command consume, or store, the token `t`?
abbrev pub consumes : Text → RaftCommand → Bool
consumes t (consume_enroll_token u) = u == t
consumes t _ = false

abbrev pub stores : Text → RaftCommand → Bool
stores t (store_enroll_token u _ _) = u == t
stores t _ = false

-- How often a token may still be consumed.
abbrev pub token_uses : Option EnrollToken → ℕ
token_uses none = 0
token_uses (some t) = if t.used then 0 else 1

-- One, if the command consumes `t` and the answer accepts it.
abbrev pub accepted_consume : Text → RaftCommand → RaftCommandResponse → ℕ
accepted_consume t cmd r = if consumes t cmd && r.success then 1 else 0

module _ {Membership : Type 0} where
  abbrev pub uses_left : Text → RaftState Membership → ℕ
  uses_left t s = token_uses (get t s.enroll_tokens)

  abbrev pub payload_stores : Text → EntryPayload Membership → Bool
  payload_stores t blank = false
  payload_stores t (normal cmd) = stores t cmd
  payload_stores t (membership_change m) = false

  abbrev pub payload_consumes : Text → EntryPayload Membership → RaftCommandResponse → ℕ
  payload_consumes t blank r = 0
  payload_consumes t (normal cmd) r = accepted_consume t cmd r
  payload_consumes t (membership_change m) r = 0

  abbrev pub NeverStores : Text → List (Entry Membership) → Type 0
  NeverStores t [] = Unit
  NeverStores t (e ∷ es) = (payload_stores t e.entry_payload ≡ false) × NeverStores t es

  -- How many entries consumed `t` with an accepting answer.
  abbrev pub consumed : Text → List (Entry Membership) → List RaftCommandResponse → ℕ
  consumed t [] rs = 0
  consumed t (e ∷ es) [] = 0
  consumed t (e ∷ es) (r ∷ rs) = payload_consumes t e.entry_payload r + consumed t es rs

  command_spends :
      (now t : Text) (cmd : RaftCommand) (s : RaftState Membership)
      → stores t cmd ≡ false
      → accepted_consume t cmd (apply_command now cmd s).0 + uses_left t (apply_command now cmd s).1
        ≡ uses_left t s
  unfolding apply_command
  command_spends now t (register_job j n r c) s h = ground arith
  command_spends now t (update_job_status j u n) s h = ground arith
  command_spends now t (add_member n g) s h = ground arith
  command_spends now t (remove_member n) s h = ground arith
  command_spends now t (store_enroll_token u e i) s h = ground (
    arith,
    get-insert u t (record { token = u; issued_by = i; expires_at = e; used = false })
        s.enroll_tokens,
  )
  command_spends now t (consume_enroll_token u) s h = elim (Option-cases (get u s.enroll_tokens)) [
    | inl e ↦ ground (arith)
    | inr (k, e) ↦
        ground (arith, get-insert u t (record k { used = true }) s.enroll_tokens, list_beq_iff u t)
  ]

  payload_spends :
      (now t : Text) (i : LogId) (p : EntryPayload Membership) (s : RaftState Membership)
      → payload_stores t p ≡ false
      → payload_consumes t p (apply_payload now i p s).0 + uses_left t (apply_payload now i p s).1
        ≡ uses_left t s
  payload_spends now t i blank s h = omega arith
  payload_spends now t i (normal cmd) s h = command_spends now t cmd s h
  payload_spends now t i (membership_change m) s h = omega arith

  -- While `t` is not stored anew, the accepted consumptions of `t` and the uses that are left add
  -- up to the uses that there were, which are one for a fresh token and none for a used one.
  pub consumed-uses_left :
      (clock : ℕ → Text) (n : ℕ) (es : List (Entry Membership)) (s : RaftState Membership)
      (t : Text)
      → NeverStores t es
      → consumed t es (apply_entries clock n es s).0 + uses_left t (apply_entries clock n es s).1
        ≡ uses_left t s
  unfolding apply_entries apply_entry
  consumed-uses_left clock n [] s t h = omega arith
  consumed-uses_left clock n (e ∷ es) s t h = omega (
    arith,
    payload_spends (clock n) t e.log_id e.entry_payload (record s { last_applied = some e.log_id })
        h.0,
    consumed-uses_left clock (suc n) es (apply_entry (clock n) e s).1 t h.1,
  )

  -- A token, used or not, that is stored again can be consumed again: after a second
  -- `StoreEnrollToken` of the same token, `ConsumeEnrollToken` is accepted once more.
  pub stored_again_usable :
      (now t expires_at issued_by : Text) (s : RaftState Membership)
      → (apply_command now
          (consume_enroll_token t)
          (apply_command now (store_enroll_token t expires_at issued_by) s).1).0
        ≡ accepted
  unfolding apply_command
  stored_again_usable now t expires_at issued_by s = ground (
    arith,
    get-insert_self t
        (record { token = t; issued_by = issued_by; expires_at = expires_at; used = false })
        s.enroll_tokens,
  )
