-- ===== src/Jobs/Enqueue/Outcomes.antt =====
-- agent/src/api_rest/mod.rs: what becomes of a job that `enqueue_job` is given.
use all4one.Prelude.{
  ℕ, ◌≡◌, refl, Bool, true, false, ◌||◌, Option, none, some, [], Text, codes, get, insert, ◌∙◌,
  get-insert_self, nat_eq, ◌==◌, ok, err, if◌then◌else◌, inl, inr, Bool-cases, arith,
}
use all4one.Common.{JobId, NodeId, NodeInfo, Uuid, queued}
use all4one.Cluster.Scheduler.{pick_node}
use all4one.Jobs.Submission.{SubmitJobRequest, no_resources, new_record}
use all4one.Jobs.Conversions.{normalize_endpoint}
use all4one.Grpc.Messages.{SubmitMessage, submit_message}
use all4one.Jobs.Dispatch.{Self, World, Call, dispatch_remote, dispatch_to_assigned}
use all4one.Jobs.Dispatch.Handover.{handovers, once, dispatch_handovers, dispatch_unanswered}
use all4one.Jobs.Enqueue.{
  Enqueued, enqueue_assigned, queued_world, response_of, scheduling_of, enqueue_job,
}

-- What a client is told of a job that is taken.
abbrev pub IsTaken : JobId → NodeId → (now : ℕ) → Enqueued → Type 0
IsTaken id node now e =
    e.answer ≡ ok (record { job_id = id; status = queued; assigned_to = node; created_at = now })

once_lem : (b : Bool) → once b ≡ (if b then 1 else 0)
once_lem true = refl
once_lem false = refl

module _ (to_string : Uuid → Text) (self : Self) (call : Call) (id : JobId)
    (request : SubmitJobRequest) (w : World) where
  -- What `dispatch_to_assigned` finds of the job: its record, queued for the node.
  abbrev pub with_job : NodeId → World
  with_job node = record w {
    jobs =
        insert id
          (record {
            job_id = id;
            status = queued;
            assigned_to = node;
            runtime = request.runtime;
            source = request.source;
            command = request.command;
            created_at = call.now;
            updated_at = call.now;
            exit_code = none;
            error = none;
          })
          w.jobs;
  }

  -- Whether the node that was picked takes the job: the node itself does, and another one that is still
  -- known when it is asked does if it answers.
  abbrev pub takes : NodeId → Bool
  takes node =
      node == self.node_id || (elim (get node (call.before (with_job node)).cluster.nodes) [
        | none ↦ false
        | some info ↦
            call.deliver (normalize_endpoint info.grpc_endpoint)
              (submit_message to_string id self.local_node.grpc_endpoint request)
      ])

  -- What becomes of a job: it lacks resources, the scheduler finds no node, or it finds one.
  abbrev pub IsOutcome : (lacking : Bool) → Option NodeId → Enqueued → Type 0
  IsOutcome true assigned e =
      (e.answer ≡ err (codes "resources.cpu_cores and resources.memory_mb must be > 0"))
      × (e.effects ≡ [])
      × (e.retry ≡ none)
      × (e.world ≡ w)
  IsOutcome false none e =
      IsTaken id self.node_id call.now e
      × (e.effects ≡ [])
      × (e.retry
          ≡ some (record {
            runtime = request.runtime;
            tier_min = request.constraints.tier_min;
            require_docker = request.constraints.requires_capabilities.needs_docker;
          }))
      × (e.world ≡ with_job self.node_id)
  IsOutcome false (some node) e =
      IsTaken id node call.now e
      × (handovers e.effects ≡ (if takes node then 1 else 0))
      × (e.retry ≡ none)

  accepted_takes :
      (node : NodeId)
      → (dispatch_to_assigned to_string self call (with_job node) node id request).accepted
        ≡ takes node
  unfolding dispatch_to_assigned dispatch_remote
  accepted_takes node = ground arith

  assigned_lem :
      (assigned : Option NodeId)
      → IsOutcome false assigned (enqueue_assigned to_string self call id request w assigned)
  unfolding enqueue_assigned
  assigned_lem none = (refl, refl, refl, refl)
  assigned_lem (some node) = (
    refl,
    dispatch_handovers to_string self id request call (with_job node) node
        ∙ rw (accepted_takes node) (once_lem (takes node)),
    refl,
  )

  -- A job without cores or without memory is refused and leaves no trace. Any other is answered as queued
  -- under the new id. Where the scheduler finds no node, it is answered for the node itself, its record
  -- is queued, nothing else happened, and one task tries it again with what it asks for. Where the
  -- scheduler finds a node, no task tries it again, and it is handed over just once if that node is the
  -- node itself, or is still known when it is asked and answers, and else never.
  pub enqueue_job_lem :
      IsOutcome
        (request.resources.cpu_cores == 0 || request.resources.memory_mb == 0)
        (pick_node to_string self.local_node w.cluster (record {
          runtime = request.runtime;
          tier_min = request.constraints.tier_min;
          require_docker = request.constraints.requires_capabilities.needs_docker;
        }))
        (enqueue_job to_string self call id request w)
  unfolding enqueue_job
  enqueue_job_lem = elim (Bool-cases (no_resources request.resources)) [
    | inl without ↦ rw (enqueue_job, without) (refl, refl, refl, refl)
    | inr fine ↦ rw (enqueue_job, fine) (assigned_lem _)
  ]

  -- A job whose node does not take it stays where it is: if the scheduler picks another node that the
  -- cluster knows, the node does not answer, and other tasks leave the maps alone meanwhile, then the
  -- client is told that the job is queued, its record is queued, it was handed to nobody, and no task
  -- tries it again.
  pub refused_job_stranded :
      (node : NodeId) (info : NodeInfo)
      → no_resources request.resources ≡ false
      → pick_node to_string self.local_node w.cluster (scheduling_of request) ≡ some node
      → (node == self.node_id) ≡ false
      → get node w.cluster.nodes ≡ some info
      → ((m : SubmitMessage) → call.deliver (normalize_endpoint info.grpc_endpoint) m ≡ false)
      → ((v : World) → call.before v ≡ v)
      → ((v : World) → call.during v ≡ v)
      → let e = enqueue_job to_string self call id request w in
        (e.answer ≡ ok (response_of self call.now id (some node)))
        × (get id e.world.jobs ≡ some (new_record call.now node id request))
        × (handovers e.effects ≡ 0)
        × (e.retry ≡ none)
  unfolding enqueue_job enqueue_assigned
  refused_job_stranded node info fine picked other known silent before during =
      let w' = queued_world self call.now id request w (some node) in
      let (same, none_handed) =
        dispatch_unanswered to_string self id request call w' node info other (rw (before w') known)
          (silent _) in
      let job = new_record call.now node id request in
      rw (enqueue_job, fine)
        (rw picked (
          refl,
          rw (same, before w', during w') (get-insert_self id job w.jobs),
          none_handed,
          refl,
        ))
