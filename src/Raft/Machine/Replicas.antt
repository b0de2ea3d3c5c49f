-- ===== src/Raft/Machine/Replicas.antt =====
-- Two replicas that apply the same entries of agent/src/raft/store.rs with clocks of their own.
use all4one.Prelude.{
  ℕ, suc, ◌≡◌, ◌≢◌, refl, sym, ap, ◌∙◌, inl, inr, Option, none, some, List, [], ◌∷◌, Text, Map, get,
  insert, nat_eq, list_eq, get-insert_self, arith, Option-cases,
}
use all4one.Raft.Commands.{
  RaftCommand, register_job, update_job_status, RaftCommandResponse, RegisteredJob,
}
use all4one.Raft.Machine.{
  LogId, RaftState, Entry, EntryPayload, blank, normal, membership_change, new_job, apply_command,
  apply_payload, apply_entry, apply_entries,
}

-- The view of a job, of the registry and of the state that leaves out the time of an update.
abbrev pub timeless_job : RegisteredJob → RegisteredJob
timeless_job j = record j { updated_at = [] }

abbrev pub timeless_jobs : Map Text RegisteredJob → Map Text RegisteredJob
timeless_jobs [] = []
timeless_jobs ((k, j) ∷ m) = (k, timeless_job j) ∷ timeless_jobs m

abbrev timeless_option : Option RegisteredJob → Option RegisteredJob
timeless_option none = none
timeless_option (some j) = some (timeless_job j)

get-timeless_jobs :
    (k : Text) (m : Map Text RegisteredJob) → get k (timeless_jobs m) ≡ timeless_option (get k m)
unfolding get
get-timeless_jobs k [] = refl
get-timeless_jobs k ((i, j) ∷ m) = ground (arith, get-timeless_jobs k m)

timeless_jobs-insert :
    (k : Text) (j : RegisteredJob) (m : Map Text RegisteredJob)
    → timeless_jobs (insert k j m) ≡ insert k (timeless_job j) (timeless_jobs m)
unfolding insert
timeless_jobs-insert k j [] = refl
timeless_jobs-insert k j ((i, w) ∷ m) = ground (arith, timeless_jobs-insert k j m)

timeless_jobs_idem :
    (m : Map Text RegisteredJob) → timeless_jobs (timeless_jobs m) ≡ timeless_jobs m
timeless_jobs_idem [] = refl
timeless_jobs_idem ((i, j) ∷ m) = ap (λ t. (i, timeless_job j) ∷ t) (timeless_jobs_idem m)

-- Inserting jobs that differ in the time of update only.
timeless_jobs-insert_timeless :
    (k : Text) (j j' : RegisteredJob) (m : Map Text RegisteredJob)
    → timeless_job j ≡ timeless_job j'
    → timeless_jobs (insert k j m) ≡ timeless_jobs (insert k j' (timeless_jobs m))
timeless_jobs-insert_timeless k j j' m h = rw (
  timeless_jobs-insert k j m,
  timeless_jobs-insert k j' (timeless_jobs m),
  timeless_jobs_idem m,
  h,
)

module _ {Membership : Type 0} where
  abbrev pub timeless : RaftState Membership → RaftState Membership
  timeless s = record s { job_registry = timeless_jobs s.job_registry }

  -- A command's answer and, up to times of update, its effect depend neither on the clock nor on
  -- the times of update in the state.
  command_timeless :
      (now : Text) (cmd : RaftCommand) (s : RaftState Membership)
      → ((apply_command now cmd s).0 ≡ (apply_command [] cmd (timeless s)).0)
        × (timeless (apply_command now cmd s).1 ≡ timeless (apply_command [] cmd (timeless s)).1)
  unfolding apply_command
  command_timeless now (register_job j n r c) s = ground (
    arith,
    get-timeless_jobs j s.job_registry,
    timeless_jobs_idem s.job_registry,
    timeless_jobs-insert_timeless j (new_job j n r c) (new_job j n r c) s.job_registry,
  )
  command_timeless now (update_job_status j u n) s = elim (Option-cases (get j s.job_registry)) [
    | inl e ↦ ground (arith, get-timeless_jobs j s.job_registry, timeless_jobs_idem s.job_registry)
    | inr (k, e) ↦ ground (
      arith,
      get-timeless_jobs j s.job_registry,
      timeless_jobs-insert_timeless j (record k { status = u; updated_at = now })
          (record k { status = u; updated_at = [] }) s.job_registry,
    )
  ]
  command_timeless now _ s = ground (arith, timeless_jobs_idem s.job_registry)

  -- The two views agree: `SameView s t` says that replicas in the states `s` and `t` hold the same,
  -- times of update aside.
  abbrev pub SameView : RaftState Membership → RaftState Membership → Type 0
  SameView s t = timeless s ≡ timeless t

  abbrev SameStep :
      RaftCommandResponse × RaftState Membership
      → RaftCommandResponse × RaftState Membership
      → Type 0
  SameStep a b = (a.0 ≡ b.0) × SameView a.1 b.1

  command_agree :
      (now now' : Text) (cmd : RaftCommand) (s t : RaftState Membership)
      → SameView s t
      → SameStep (apply_command now cmd s) (apply_command now' cmd t)
  command_agree now now' cmd s t h =
      let (r, v) = command_timeless now cmd s in
      let (r', v') = command_timeless now' cmd t in
      (
        r ∙ ap (λ u. (apply_command [] cmd u).0) h ∙ sym r',
        v ∙ ap (λ u. timeless (apply_command [] cmd u).1) h ∙ sym v',
      )

  -- An assignment to a field that the view keeps.
  SameView-last_applied :
      (i : LogId) (s t : RaftState Membership)
      → SameView s t
      → SameView (record s { last_applied = some i }) (record t { last_applied = some i })
  SameView-last_applied i s t h =
      ap {B = RaftState Membership}
        (λ (u : RaftState Membership). record u { last_applied = some i }) h

  payload_agree :
      (now now' : Text) (i : LogId) (p : EntryPayload Membership) (s t : RaftState Membership)
      → SameView s t
      → SameStep (apply_payload now i p s) (apply_payload now' i p t)
  payload_agree now now' i blank s t h = (refl, h)
  payload_agree now now' i (normal cmd) s t h = command_agree now now' cmd s t h
  payload_agree now now' i (membership_change m) s t h = (
    refl,
    ap {B = RaftState Membership}
        (λ (u : RaftState Membership). record u {
          last_membership = record { log_id = some i; membership = m };
        })
        h,
  )

  entry_agree :
      (now now' : Text) (e : Entry Membership) (s t : RaftState Membership)
      → SameView s t
      → SameStep (apply_entry now e s) (apply_entry now' e t)
  unfolding apply_entry
  entry_agree now now' e s t h =
      payload_agree now now' e.log_id e.entry_payload _ _ (SameView-last_applied e.log_id s t h)

  -- Replicas that hold the same, times of update aside, and apply the same entries, each by its own
  -- clock, give the same answers and again hold the same, times of update aside.
  pub replicas_agree :
      (clock clock' : ℕ → Text) (n n' : ℕ) (es : List (Entry Membership))
      (s t : RaftState Membership)
      → SameView s t
      → ((apply_entries clock n es s).0 ≡ (apply_entries clock' n' es t).0)
        × SameView (apply_entries clock n es s).1 (apply_entries clock' n' es t).1
  unfolding apply_entries
  replicas_agree clock clock' n n' [] s t h = (refl, h)
  replicas_agree clock clock' n n' (e ∷ es) s t h =
      let (r, v) = entry_agree (clock n) (clock' n') e s t h in
      let (rs, w) = replicas_agree clock clock' (suc n) (suc n') es _ _ v in (cc, w)

  update_job_status_lem :
      (now job_id status node_id : Text) (s : RaftState Membership) (j : RegisteredJob)
      → get job_id s.job_registry ≡ some j
      → get job_id (apply_command now (update_job_status job_id status node_id) s).1.job_registry
        ≡ some (record j { status = status; updated_at = now })
  unfolding apply_command
  update_job_status_lem now job_id status node_id s j h =
      rw (h, apply_command) (get-insert_self job_id _ s.job_registry)

  -- The states themselves come apart: from a state that holds a job, the same update of its status
  -- at two different readings of the clock leads to two different states.
  pub replicas_differ :
      (now now' job_id status node_id : Text) (s : RaftState Membership) (j : RegisteredJob)
      → get job_id s.job_registry ≡ some j
      → now ≢ now'
      → (apply_command now (update_job_status job_id status node_id) s).1
        ≢ (apply_command now' (update_job_status job_id status node_id) s).1
  replicas_differ now now' job_id status node_id s j h ne e = ne (
      cc (
        ap (λ (u : RaftState Membership). get job_id u.job_registry) e,
        update_job_status_lem now job_id status node_id s j h,
        update_job_status_lem now' job_id status node_id s j h,
      ))
