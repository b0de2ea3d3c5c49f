-- ===== src/Jobs/Dispatch/Retry.antt =====
-- agent/src/api_rest/mod.rs: that `spawn_retry_dispatch` reaches a node, and when it stops.
use all4one.Prelude.{
  ℕ, zero, suc, ◌+◌, ◌<◌, ◌≡◌, refl, true, false, none, some, Text, get, subst, nat_eq, arith,
}
use all4one.Common.{JobId, NodeId, NodeInfo, Uuid}
use all4one.Cluster.Scheduler.{SchedulingRequest, pick_node}
use all4one.Jobs.Submission.{SubmitJobRequest}
use all4one.Jobs.Conversions.{normalize_endpoint}
use all4one.Grpc.Messages.{SubmitMessage, submit_message}
use all4one.Jobs.Dispatch.Rounds.{round_cases}
use all4one.Jobs.Dispatch.{
  Self, World, Call, is_waiting, Round, dispatch_remote, dispatch_to_assigned, retry_rounds,
  spawn_retry_dispatch,
}

abbrev pub Waits : JobId → World → Type 0
Waits id w = is_waiting (get id w.jobs) ≡ true

module _ (to_string : Uuid → Text) (self : Self) (id : JobId) (request : SubmitJobRequest) where
  -- A dispatch that fails has left the job alone.
  refused-Waits :
      (call : Call) (w : World) (node : NodeId)
      → ((v : World) → Waits id v → Waits id (call.before v))
      → ((v : World) → Waits id v → Waits id (call.during v))
      → (dispatch_to_assigned to_string self call w node id request).accepted ≡ false
      → Waits id w
      → Waits id (dispatch_to_assigned to_string self call w node id request).world
  unfolding dispatch_to_assigned dispatch_remote
  refused-Waits call w node before during refused waits =
      ground (arith, before w waits, during (call.before w) (before w waits))

  -- A dispatch to a node that is known and answers succeeds.
  answered_accepted :
      (call : Call) (w : World) (node : NodeId) (n : NodeInfo)
      → get node (call.before w).cluster.nodes ≡ some n
      → ((m : SubmitMessage) → call.deliver (normalize_endpoint n.grpc_endpoint) m ≡ true)
      → (dispatch_to_assigned to_string self call w node id request).accepted ≡ true
  unfolding dispatch_to_assigned dispatch_remote
  answered_accepted call w node n known answers =
      ground (arith, answers (submit_message to_string id self.local_node.grpc_endpoint request))

  module _ (scheduling : SchedulingRequest) (rounds : ℕ → Round) where
    -- The maps after round `i`, if it does not end the retries.
    abbrev pub after_round : ℕ → World → World
    after_round i w =
        let awake = (rounds i).0 w in
        elim (pick_node to_string self.local_node awake.cluster scheduling) [
          | none ↦ awake
          | some found ↦
              (dispatch_to_assigned to_string self (rounds i).1 awake found id request).world
        ]

    after_idle :
        (i : ℕ) (w : World)
        → pick_node to_string self.local_node ((rounds i).0 w).cluster scheduling ≡ none
        → after_round i w ≡ (rounds i).0 w
    after_idle i w e = rw (after_round, e) refl

    after_call :
        (i : ℕ) (w : World) (found : NodeId)
        → pick_node to_string self.local_node ((rounds i).0 w).cluster scheduling ≡ some found
        → after_round i w
          ≡ (dispatch_to_assigned to_string self
              (rounds i).1
              ((rounds i).0 w)
              found
              id
              request).world
    after_call i w found e = rw (after_round, e) refl

    -- The maps after `m` rounds from round `i` on.
    abbrev pub after_rounds : (m i : ℕ) → World → World
    after_rounds zero i w = w
    after_rounds (suc m) i w = after_rounds m (suc i) (after_round i w)

    module _ (k : ℕ) (node : NodeId) (info : NodeInfo)
        (sleeps : (j : ℕ) (v : World) → Waits id v → Waits id ((rounds j).0 v))
        (before : (j : ℕ) (v : World) → Waits id v → Waits id ((rounds j).1.before v))
        (during : (j : ℕ) (v : World) → Waits id v → Waits id ((rounds j).1.during v))
        (answers : (m : SubmitMessage)
          → (rounds k).1.deliver (normalize_endpoint info.grpc_endpoint) m ≡ true) where
      -- In round `k` the scheduler finds the node, and the cluster knows it.
      abbrev Finds : World → Type 0
      Finds w =
          (pick_node to_string self.local_node w.cluster scheduling ≡ some node)
          × (get node ((rounds k).1.before w).cluster.nodes ≡ some info)

      -- Round `k` ends by a dispatch.
      round_reaches :
          (n : ℕ) (w : World)
          → Waits id w
          → Finds ((rounds k).0 w)
          → (retry_rounds to_string self id request scheduling rounds (suc n) k w).accepted ≡ true
      unfolding retry_rounds
      round_reaches n w waits (picked, known) =
          let taken = answered_accepted (rounds k).1 ((rounds k).0 w) node info known answers in
          rw (retry_rounds, sleeps k w waits)
            (rw (retry_rounds, picked) (rw (retry_rounds, taken) taken))

      rounds_reach :
          (m n i : ℕ) (w : World)
          → i + m ≡ k
          → m < n
          → Waits id w
          → Finds ((rounds k).0 (after_rounds m i w))
          → (retry_rounds to_string self id request scheduling rounds n i w).accepted ≡ true
      unfolding retry_rounds
      rounds_reach m zero i w at lo waits found = absurd (omega arith)
      rounds_reach zero (suc n) i w at lo waits found =
          let e : k ≡ i = omega (arith, at) in
          subst
            (λ j.
              (retry_rounds to_string self id request scheduling rounds (suc n) j w).accepted
              ≡ true)
            e (round_reaches n w waits found)
      rounds_reach (suc m) (suc n) i w at lo waits found =
          round_cases to_string self id request (λ d. d.accepted ≡ true) scheduling rounds n i w
            (λ gone. absurd (cc (gone, sleeps i w waits)))
            (λ woke e.
              rounds_reach m n (suc i) ((rounds i).0 w) (omega (arith, at)) (omega arith) woke (
                subst (λ v. Finds ((rounds k).0 (after_rounds m (suc i) v))) (after_idle i w e)
                  found))
            (λ found_node woke e taken. taken)
            (λ found_node woke e refused.
              rounds_reach m n (suc i)
                (dispatch_to_assigned to_string self (rounds i).1 ((rounds i).0 w) found_node id
                  request).world
                (omega (arith, at)) (omega arith)
                (refused-Waits (rounds i).1 ((rounds i).0 w) found_node (before i) (during i)
                  refused woke)
                (subst (λ v. Finds ((rounds k).0 (after_rounds m (suc i) v)))
                  (after_call i w found_node e) found))

      -- The retries of a queued job reach a node: if other tasks leave it queued, and when one of the sixty rounds
      -- wakes the scheduler names a node, the cluster still knows it when it is asked, and it answers,
      -- then they end by a dispatch, in this round or in an earlier one.
      pub retry_reaches_node :
          k < 60
          → (w : World) → Waits id w
          → pick_node to_string self.local_node
              ((rounds k).0 (after_rounds k 0 w)).cluster
              scheduling
            ≡ some node
          → get node ((rounds k).1.before ((rounds k).0 (after_rounds k 0 w))).cluster.nodes
            ≡ some info
          → (spawn_retry_dispatch to_string self id request scheduling rounds w).accepted ≡ true
      unfolding spawn_retry_dispatch
      retry_reaches_node in_time w waits picked known =
          rounds_reach k 60 0 w (omega arith) (omega arith) waits (picked, known)
