-- ===== src/Jobs/Dispatch/Handover.antt =====
-- agent/src/api_rest/mod.rs: how often `dispatch_to_assigned` and `spawn_retry_dispatch` hand a job over.
use all4one.Prelude.{
  ℕ, zero, suc, ◌+◌, ◌≡◌, refl, Bool, true, false, some, List, [], ◌∷◌, ◌++◌, Text, get, nat_eq,
  ◌==◌, if◌then◌else◌, inl, inr, Bool-cases, Option-cases, arith,
}
use all4one.Common.{JobId, NodeId, NodeInfo, Uuid}
use all4one.Cluster.Scheduler.{SchedulingRequest}
use all4one.Jobs.Conversions.{normalize_endpoint}
use all4one.Grpc.Messages.{submit_message}
use all4one.Jobs.Submission.{SubmitJobRequest}
use all4one.Jobs.Dispatch.Rounds.{round_cases}
use all4one.Jobs.Dispatch.{
  Self, World, Effect, spawned, submitted, published, Call, Dispatched, Round, job_event,
  dispatch_remote, dispatch_to_assigned, retry_rounds, spawn_retry_dispatch,
}

-- How often a job was handed over: to the executor, or to a node that answered.
abbrev pub handovers : List Effect → ℕ
handovers [] = 0
handovers (spawned r ∷ effects) = suc (handovers effects)
handovers (submitted endpoint m true ∷ effects) = suc (handovers effects)
handovers (submitted endpoint m false ∷ effects) = handovers effects
handovers (published e ∷ effects) = handovers effects

handovers-append : (xs ys : List Effect) → handovers (xs ++ ys) ≡ handovers xs + handovers ys
handovers-append [] ys = omega arith
handovers-append (spawned r ∷ xs) ys = omega (arith, handovers-append xs ys)
handovers-append (submitted e m true ∷ xs) ys = omega (arith, handovers-append xs ys)
handovers-append (submitted e m false ∷ xs) ys = handovers-append xs ys
handovers-append (published e ∷ xs) ys = handovers-append xs ys

abbrev pub once : Bool → ℕ
once true = 1
once false = 0

module _ (to_string : Uuid → Text) (self : Self) (id : JobId) (request : SubmitJobRequest) where
  remote_handovers :
      (call : Call) (w : World) (node : NodeId) (endpoint : Text)
      → let d = dispatch_remote to_string self call w node endpoint id request in
        handovers d.effects ≡ once d.accepted
  unfolding dispatch_remote job_event
  remote_handovers call w node endpoint =
      elim (Bool-cases (
        call.deliver (normalize_endpoint endpoint)
          (submit_message to_string id self.local_node.grpc_endpoint request))) [
            | inl e ↦ rw (dispatch_remote, e) refl
            | inr e ↦ rw (dispatch_remote, e) refl
          ]

  pub dispatch_handovers :
      (call : Call) (w : World) (node : NodeId)
      → let d = dispatch_to_assigned to_string self call w node id request in
        handovers d.effects ≡ once d.accepted
  unfolding dispatch_to_assigned job_event
  dispatch_handovers call w node = elim (Bool-cases (node == self.node_id)) [
    | inl e ↦ rw (dispatch_to_assigned, e) refl
    | inr e ↦ elim (Option-cases (get node (call.before w).cluster.nodes)) [
      | inl unknown ↦ rw (dispatch_to_assigned, e) (rw (dispatch_to_assigned, unknown) refl)
      | inr (n, known) ↦
          rw (dispatch_to_assigned, e)
            (rw (dispatch_to_assigned, known)
              (remote_handovers call (call.before w) node n.grpc_endpoint))
    ]
  ]

  -- A record of the way a task ends, with its effects.
  abbrev pub Counted : Dispatched → Type 0
  Counted d = handovers d.effects ≡ once d.accepted

  pub rounds_handovers :
      (scheduling : SchedulingRequest) (rounds : ℕ → Round) (n i : ℕ) (w : World)
      → Counted (retry_rounds to_string self id request scheduling rounds n i w)
  unfolding retry_rounds
  rounds_handovers scheduling rounds zero i w = refl
  rounds_handovers scheduling rounds (suc n) i w =
      round_cases to_string self id request Counted scheduling rounds n i w (λ gone. refl)
        (λ waits e. rounds_handovers scheduling rounds n (suc i) _)
        (λ node waits e a. dispatch_handovers (rounds i).1 _ node)
        (λ node waits e r. omega (
          arith,
          handovers-append
              (dispatch_to_assigned to_string self (rounds i).1 ((rounds i).0 w) node id
                request).effects
              _,
          rw r at (dispatch_handovers (rounds i).1 ((rounds i).0 w) node),
          rounds_handovers scheduling rounds n (suc i)
              (dispatch_to_assigned to_string self (rounds i).1 ((rounds i).0 w) node id
                request).world,
        ))

  -- Whatever other tasks do meanwhile and whoever answers, the sixty rounds hand a job over at most
  -- once: once to the executor or to a node that answered if they end by a dispatch, and else never.
  pub retry_handovers :
      (scheduling : SchedulingRequest) (rounds : ℕ → Round) (w : World)
      → let d = spawn_retry_dispatch to_string self id request scheduling rounds w in
        handovers d.effects ≡ (if d.accepted then 1 else 0)
  unfolding spawn_retry_dispatch
  retry_handovers scheduling rounds w = ground (arith, rounds_handovers scheduling rounds 60 0 w)

  -- A node that is known and does not answer.
  pub dispatch_unanswered :
      (call : Call) (w : World) (node : NodeId) (n : NodeInfo)
      → (node == self.node_id) ≡ false
      → get node (call.before w).cluster.nodes ≡ some n
      → call.deliver
          (normalize_endpoint n.grpc_endpoint)
          (submit_message to_string id self.local_node.grpc_endpoint request)
        ≡ false
      → let d = dispatch_to_assigned to_string self call w node id request in
        (d.world ≡ call.during (call.before w)) × (handovers d.effects ≡ 0)
  unfolding dispatch_to_assigned dispatch_remote job_event
  dispatch_unanswered call w node n other known silent = ground (arith, other, known, silent)
