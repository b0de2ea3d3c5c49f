-- ===== src/Examples/DispatchExamples.antt =====
-- The properties of a job's way to a node (agent/src/api_rest/mod.rs) at two nodes.
use all4one.Prelude.{
  ℕ, ◌≡◌, refl, Bool, true, false, not, ◌&&◌, none, some, [], ◌∷◌, Text, codes, get, insert, values,
  length, any, keep, drop, min, ◌-◌, ok, nat_eq, list_eq, ◌==◌, if◌then◌else◌, arith,
}
use all4one.Common.{NodeId, NodeInfo, cancelled, completed, executable}
use all4one.Cluster.Scheduler.{
  SchedulingRequest, pick_node, runtime_supported, first_supported, sort_by_key, insert_by_key,
}
use all4one.Cluster.Discovery.{new_peer}
use all4one.Jobs.Records.{pos, Jobs, JobRecord, Report, delete_job, apply_terminal_job_update}
use all4one.Jobs.Submission.{SubmitJobRequest, new_record}
use all4one.Jobs.Dispatch.{
  Self, World, Call, Round, dispatch_remote, dispatch_to_assigned, retry_rounds,
  spawn_retry_dispatch,
}
use all4one.Jobs.Dispatch.Handover.{handovers, retry_handovers}
use all4one.Jobs.Dispatch.Retry.{after_rounds, retry_reaches_node}
use all4one.Jobs.Dispatch.Races.{deleted_not_dispatched, reported_during_dispatch}
use all4one.Jobs.Enqueue.{scheduling_of, response_of, enqueue_job}
use all4one.Jobs.Enqueue.Outcomes.{IsOutcome, enqueue_job_lem, refused_job_stranded}
use all4one.Jobs.Queries.{ListJobsQuery, has_status, on_node, list_jobs}
use all4one.Jobs.Queries.Listing.{OldestFirst, list_jobs_lem}

-- An id's text is the id itself, one letter.
abbrev id_text : NodeId → Text
id_text i = i ∷ []

abbrev node : NodeId → NodeInfo
node i =
    new_peer i
      (record { id = i ∷ []; tier = 1; grpc_endpoint = codes "h:1"; rest_endpoint = codes "h:1" })

abbrev self : Self
self = record { node_id = 1; local_node = node 1 }

abbrev request : SubmitJobRequest
request = record {
  runtime = executable;
  source = codes "/bin/true";
  command = [];
  resources = record { cpu_cores = 1; memory_mb = 64 };
  constraints = record { tier_min = 0; requires_capabilities = record { needs_docker = false } };
}

abbrev scheduling : SchedulingRequest
scheduling = scheduling_of request

-- Job 5 is queued, and node 2 is the only one.
abbrev world : World
world = record {
  jobs = (5, new_record 10 1 5 request) ∷ [];
  cluster = record { nodes = (2, node 2) ∷ []; version = 0 };
}

abbrev idle : World → World
idle w = w

abbrev call : Bool → Call
call answers = record { before = idle; during = idle; deliver = λ e m. answers; now = 20 }

-- Nothing else happens, and the other node answers in round 3 only.
abbrev rounds : ℕ → Round
rounds i = (idle, call (i == 3))

retry_handovers_example :
    let d = spawn_retry_dispatch id_text self 5 request scheduling rounds world in
    handovers d.effects ≡ (if d.accepted then 1 else 0)
retry_handovers_example = retry_handovers id_text self 5 request scheduling rounds world

picks_two : pick_node id_text (node 1) world.cluster scheduling ≡ some 2
unfolding pick_node values sort_by_key insert_by_key first_supported runtime_supported new_peer
picks_two = refl

knows_two : get 2 world.cluster.nodes ≡ some (node 2)
unfolding get
knows_two = refl

-- Three rounds in which the node does not answer leave all as it was.
three_rounds : after_rounds id_text self 5 request scheduling rounds 3 0 world ≡ world
unfolding pick_node values sort_by_key insert_by_key first_supported runtime_supported new_peer
    dispatch_to_assigned dispatch_remote get
three_rounds = refl

retry_reaches_node_example :
    (spawn_retry_dispatch id_text self 5 request scheduling rounds world).accepted ≡ true
unfolding get new_peer
retry_reaches_node_example =
    retry_reaches_node id_text self 5 request scheduling rounds 3 2 (node 2) (λ j v h. h)
      (λ j v h. h) (λ j v h. h) (λ m. refl) (omega arith) world refl (rw three_rounds picks_two)
      (rw three_rounds knows_two)

-- The node never answers, and the job is deleted while round 2 sleeps.
abbrev deleting : ℕ → Round
deleting i =
    (λ w. if i == 2 then record w { jobs = (delete_job 12 (some 5) w.jobs).1 } else w, call false)

two_rounds :
    (deleting 2).0 (retry_rounds id_text self 5 request scheduling deleting 2 0 world).world
    ≡ record world { jobs = (delete_job 12 (some 5) world.jobs).1 }
unfolding pick_node values sort_by_key insert_by_key first_supported runtime_supported new_peer
    dispatch_to_assigned dispatch_remote retry_rounds get
two_rounds = refl

deleted_not_dispatched_example :
    let earlier = retry_rounds id_text self 5 request scheduling deleting 2 0 world in
    let all = spawn_retry_dispatch id_text self 5 request scheduling deleting world in
    (all.effects ≡ earlier.effects) × (handovers all.effects ≡ (if earlier.accepted then 1 else 0))
unfolding delete_job get
deleted_not_dispatched_example =
    deleted_not_dispatched id_text self 5 request scheduling deleting 2 12 world world
      (record (new_record 10 1 5 request) { status = cancelled; updated_at = 12 }) idle
      (omega arith) refl (λ v gone. gone) two_rounds

abbrev report : Report
report = record { status = completed; exit_code = some (pos 0); error = none }

abbrev reported : Jobs
reported =
    (
      5,
      record (new_record 10 1 5 request) {
        status = completed;
        exit_code = some (pos 0);
        updated_at = 15;
      },
    )
    ∷ []

abbrev racing : Call
racing = record (call true) { during = λ w. record w { jobs = reported } }

reported_during_dispatch_example :
    (j : JobRecord) × (get 5 (dispatch_to_assigned id_text self racing world 2 5 request).world.jobs
      ≡ some j)
    × (j.status ≡ completed)
    × (j.exit_code ≡ some (pos 0))
    × (j.error ≡ none)
unfolding apply_terminal_job_update get insert
reported_during_dispatch_example =
    reported_during_dispatch id_text self 5 request racing world 2 (node 2) 15 report reported refl
      knows_two refl refl refl

-- No job yet.
abbrev fresh : World
fresh = record world { jobs = [] }

enqueue_job_lem_example :
    IsOutcome id_text self
      (call true)
      5
      request
      fresh
      false
      (pick_node id_text (node 1) fresh.cluster scheduling)
      (enqueue_job id_text self (call true) 5 request fresh)
enqueue_job_lem_example = enqueue_job_lem id_text self (call true) 5 request fresh

refused_job_stranded_example :
    let e = enqueue_job id_text self (call false) 5 request fresh in
    (e.answer ≡ ok (response_of self 20 5 (some 2)))
    × (get 5 e.world.jobs ≡ some (new_record 20 2 5 request))
    × (handovers e.effects ≡ 0)
    × (e.retry ≡ none)
refused_job_stranded_example =
    refused_job_stranded id_text self (call false) 5 request fresh 2 (node 2) refl picks_two refl
      knows_two (λ m. refl) (λ v. refl) (λ v. refl)

-- The queued jobs, and of them the last one.
abbrev query : ListJobsQuery
query = record { status = some (codes "Queued"); node_id = none; limit = some 1 }

list_jobs_lem_example :
    let listed = list_jobs id_text query world.jobs in
    (any (λ j. not (on_node id_text none j && has_status query.status j)) listed ≡ false)
    × OldestFirst listed
    × OldestFirst (list_jobs id_text (record query { limit = none }) world.jobs)
    × (length listed
        ≡ min 1 (
            length
              (keep (on_node id_text none) (keep (has_status query.status) (values world.jobs)))))
    × (listed
        ≡ drop
            (length (list_jobs id_text (record query { limit = none }) world.jobs) - 1)
            (list_jobs id_text (record query { limit = none }) world.jobs))
list_jobs_lem_example = list_jobs_lem id_text query world.jobs 1 refl
