-- ===== src/Jobs/Dispatch/Races.antt =====
-- agent/src/api_rest/mod.rs: a dispatch, and what other tasks do to its job meanwhile.
use all4one.Prelude.{
  ℕ, zero, suc, ◌+◌, ◌<◌, ◌≡◌, refl, ap, sym, ◌∙◌, subst, false, some, ◌++◌, Text, get,
  get-insert_self, nat_eq, ◌==◌, inl, inr, if◌then◌else◌, Bool-cases, Option-cases, arith,
}
use all4one.Common.{JobId, NodeId, NodeInfo, Uuid, cancelled}
use all4one.Cluster.Scheduler.{SchedulingRequest, pick_node}
use all4one.Jobs.Records.{Jobs, JobRecord, Report, delete_job, deleted, apply_terminal_job_update}
use all4one.Jobs.Submission.{SubmitJobRequest}
use all4one.Jobs.Dispatch.Rounds.{round_asleep, round_idle, round_taken, round_refused}
use all4one.Jobs.Dispatch.Handover.{handovers, rounds_handovers}
use all4one.Jobs.Dispatch.{
  Self, World, Call, Dispatched, is_waiting, is_queued, Round, mark_dispatched, dispatch_remote,
  dispatch_to_assigned, retry_rounds, spawn_retry_dispatch,
}

deleted_gone :
    (now : ℕ) (id : JobId) (jobs : Jobs) (job : JobRecord)
    → (delete_job now (some id) jobs).0 ≡ deleted job
    → is_waiting (get id (delete_job now (some id) jobs).1) ≡ false
unfolding delete_job
deleted_gone now id jobs job e = elim (Option-cases (get id jobs)) [
  | inl absent ↦ absurd (ground (arith, absent, e))
  | inr (found, present) ↦ ground (
    arith,
    present,
    e,
    get-insert_self id (record found { status = cancelled; updated_at = now }) jobs,
  )
]

mark_keeps_reported :
    (now later : ℕ) (assigned : NodeId) (id : JobId) (r : Report) (jobs reported : Jobs)
    → is_queued r.status ≡ false
    → apply_terminal_job_update now id r jobs ≡ some reported
    → (mark_dispatched later assigned id reported ≡ reported)
      × ((j : JobRecord) × (get id reported ≡ some j)
          × (j.status ≡ r.status)
          × (j.exit_code ≡ r.exit_code)
          × (j.error ≡ r.error))
unfolding apply_terminal_job_update mark_dispatched
mark_keeps_reported now later assigned id r jobs reported ended e =
    elim (Option-cases (get id jobs)) [
      | inl absent ↦ absurd (ground (arith, absent, e))
      | inr (job, present) ↦
          let j : JobRecord = record job {
            status = r.status;
            exit_code = r.exit_code;
            error = r.error;
            updated_at = now;
          } in
          let kept : get id reported ≡ some j =
            ground (arith, present, e, get-insert_self id j jobs) in
          (
            rw (mark_dispatched, kept) (rw (mark_dispatched, ended) refl),
            (j, kept, refl, refl, refl),
          )
    ]

module _ (to_string : Uuid → Text) (self : Self) (id : JobId) (request : SubmitJobRequest) where
  module _ (scheduling : SchedulingRequest) (rounds : ℕ → Round) where
    abbrev first : (n i : ℕ) → World → Dispatched
    first n i w = retry_rounds to_string self id request scheduling rounds n i w

    -- If the job does not wait when round `j` wakes, the rounds before it did all that is done.
    rounds_cut :
        (j k n i : ℕ) (w : World)
        → j ≡ i + k
        → k < n
        → is_waiting (get id ((rounds j).0 (first k i w).world).jobs) ≡ false
        → (first n i w).effects ≡ (first k i w).effects
    unfolding retry_rounds
    rounds_cut j k zero i w at lo gone = absurd (omega arith)
    rounds_cut j zero (suc n) i w at lo gone =
        let e : j ≡ i = omega (arith, at) in
        ap (λ (d : Dispatched). d.effects)
          (round_asleep to_string self id request scheduling rounds n i w
            (subst (λ x. is_waiting (get id ((rounds x).0 w).jobs) ≡ false) e gone))
    rounds_cut j (suc k) (suc n) i w at lo gone =
        let effects_of = λ (d : Dispatched). d.effects in
        let asleep_after =
          λ (d : Dispatched). is_waiting (get id ((rounds j).0 d.world).jobs) ≡ false in
        let awake = (rounds i).0 w in
        elim (Bool-cases (is_waiting (get id awake.jobs))) [
          | inr gone_now ↦
              ap effects_of
                (round_asleep to_string self id request scheduling rounds n i w gone_now)
              ∙ sym (
                  ap effects_of
                    (round_asleep to_string self id request scheduling rounds k i w gone_now))
          | inl waits ↦
              elim (Option-cases (pick_node to_string self.local_node awake.cluster scheduling)) [
                | inl nobody ↦
                    let step = λ (m : ℕ).
                      round_idle to_string self id request scheduling rounds m i w waits nobody in
                    ap effects_of (step n)
                    ∙ rounds_cut j k n (suc i) awake (omega (arith, at)) (omega arith)
                        (subst asleep_after (step k) gone)
                    ∙ sym (ap effects_of (step k))
                | inr (node, picked) ↦
                    let d =
                      dispatch_to_assigned to_string self (rounds i).1 awake node id request in
                    elim (Bool-cases d.accepted) [
                      | inl a ↦
                          let step = λ (m : ℕ).
                            round_taken to_string self id request scheduling rounds m i w node waits
                              picked a in
                          ap effects_of (step n) ∙ sym (ap effects_of (step k))
                      | inr r ↦
                          let step = λ (m : ℕ).
                            round_refused to_string self id request scheduling rounds m i w node
                              waits picked r in
                          ap effects_of (step n)
                          ∙ ap (λ es. d.effects ++ es)
                              (rounds_cut j k n (suc i) d.world (omega (arith, at)) (omega arith)
                                (subst asleep_after (step k) gone))
                          ∙ sym (ap effects_of (step k))
                    ]
              ]
        ]

  -- A job that is deleted while its retries sleep goes nowhere afterwards. Whatever the first `k` rounds
  -- and other tasks did before, if the job is deleted in the sleep of round `k` and other tasks do not
  -- queue it again before that round wakes, then all that the sixty rounds start, send and publish is
  -- what the first `k` did, and the job is handed over just if one of these ended by a dispatch.
  pub deleted_not_dispatched :
      (scheduling : SchedulingRequest) (rounds : ℕ → Round) (k now : ℕ) (w u : World)
      (job : JobRecord) (others : World → World)
      → k < 60
      → (delete_job now (some id) u.jobs).0 ≡ deleted job
      → ((v : World)
          → is_waiting (get id v.jobs) ≡ false
          → is_waiting (get id (others v).jobs) ≡ false)
      → (rounds k).0 (retry_rounds to_string self id request scheduling rounds k 0 w).world
        ≡ others (record u { jobs = (delete_job now (some id) u.jobs).1 })
      → let earlier = retry_rounds to_string self id request scheduling rounds k 0 w in
        let all = spawn_retry_dispatch to_string self id request scheduling rounds w in
        (all.effects ≡ earlier.effects)
        × (handovers all.effects ≡ (if earlier.accepted then 1 else 0))
  unfolding spawn_retry_dispatch
  deleted_not_dispatched scheduling rounds k now w u job others in_time e stays woken =
      let u' : World = record u { jobs = (delete_job now (some id) u.jobs).1 } in
      let gone = stays u' (deleted_gone now id u.jobs job e) in
      let same =
        rounds_cut scheduling rounds k k 60 0 w (omega arith) in_time
          (subst (λ (v : World). is_waiting (get id v.jobs) ≡ false) (sym woken) gone) in
      (
        same,
        ap handovers same
            ∙ ground (arith, rounds_handovers to_string self id request scheduling rounds k 0 w),
      )

  -- A report of a job's end that arrives while the other node is still asked stays: if the node then
  -- takes the job, its record has the state, the exit code and the error of the report, and is not set
  -- back to running.
  pub reported_during_dispatch :
      (call : Call) (w : World) (node : NodeId) (info : NodeInfo) (now : ℕ) (r : Report)
      (reported : Jobs)
      → (node == self.node_id) ≡ false
      → get node (call.before w).cluster.nodes ≡ some info
      → is_queued r.status ≡ false
      → apply_terminal_job_update now id r (call.before w).jobs ≡ some reported
      → (call.during (call.before w)).jobs ≡ reported
      → (j : JobRecord) × (get id
            (dispatch_to_assigned to_string self call w node id request).world.jobs
          ≡ some j)
        × (j.status ≡ r.status)
        × (j.exit_code ≡ r.exit_code)
        × (j.error ≡ r.error)
  unfolding dispatch_to_assigned dispatch_remote
  reported_during_dispatch call w node info now r reported other known ended e then' =
      let kept = mark_keeps_reported now call.now node id r (call.before w).jobs reported ended e in
      let (j, here, s, c, x) = kept.1 in
      (j, ground (arith, other, known, kept.0, here, then'), s, c, x)
