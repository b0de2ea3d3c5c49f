-- ===== src/Jobs/Dispatch/Rounds.antt =====
-- agent/src/api_rest/mod.rs: the cases of `dispatch_to_assigned` and of a round of
-- `spawn_retry_dispatch`, which the proofs about them split on.
use all4one.Prelude.{
  ℕ, suc, ◌≡◌, refl, true, false, none, some, [], ◌++◌, Text, get, nat_eq, inl, inr, Bool-cases,
  Option-cases,
}
use all4one.Common.{JobId, NodeId, Uuid}
use all4one.Cluster.Scheduler.{SchedulingRequest, pick_node}
use all4one.Jobs.Submission.{SubmitJobRequest}
use all4one.Jobs.Dispatch.{
  Self, World, Dispatched, is_waiting, Round, dispatch_to_assigned, retry_rounds,
}

module _ {ℓ} (to_string : Uuid → Text) (self : Self) (id : JobId) (request : SubmitJobRequest)
    (P : Dispatched → Type ℓ) where
  pub round_cases :
      (scheduling : SchedulingRequest) (rounds : ℕ → Round) (n i : ℕ) (w : World)
      → (is_waiting (get id ((rounds i).0 w).jobs) ≡ false
          → P (record { accepted = false; effects = []; world = (rounds i).0 w }))
      → (is_waiting (get id ((rounds i).0 w).jobs) ≡ true
          → pick_node to_string self.local_node ((rounds i).0 w).cluster scheduling ≡ none
          → P (retry_rounds to_string self id request scheduling rounds n (suc i) ((rounds i).0 w)))
      → ((node : NodeId)
          → is_waiting (get id ((rounds i).0 w).jobs) ≡ true
          → pick_node to_string self.local_node ((rounds i).0 w).cluster scheduling ≡ some node
          → let d =
              dispatch_to_assigned to_string self (rounds i).1 ((rounds i).0 w) node id request in
            d.accepted ≡ true → P d)
      → ((node : NodeId)
          → is_waiting (get id ((rounds i).0 w).jobs) ≡ true
          → pick_node to_string self.local_node ((rounds i).0 w).cluster scheduling ≡ some node
          → let d =
              dispatch_to_assigned to_string self (rounds i).1 ((rounds i).0 w) node id request in
            d.accepted ≡ false
            → let rest =
                retry_rounds to_string self id request scheduling rounds n (suc i) d.world in
              P (record rest { effects = d.effects ++ rest.effects }))
      → P (retry_rounds to_string self id request scheduling rounds (suc n) i w)
  unfolding retry_rounds
  round_cases scheduling rounds n i w asleep nobody taken refused =
      elim (Bool-cases (is_waiting (get id ((rounds i).0 w).jobs))) [
        | inl waits ↦
            elim (Option-cases
              (pick_node to_string self.local_node ((rounds i).0 w).cluster scheduling)) [
                | inl e ↦ rw (retry_rounds, waits) (rw (retry_rounds, e) (nobody waits e))
                | inr (node, e) ↦
                    elim (Bool-cases
                      (dispatch_to_assigned to_string self (rounds i).1 ((rounds i).0 w) node id
                        request).accepted) [
                          | inl a ↦
                              rw (retry_rounds, waits)
                                (rw (retry_rounds, e) (rw (retry_rounds, a) (taken node waits e a)))
                          | inr r ↦
                              rw (retry_rounds, waits)
                                (rw (retry_rounds, e)
                                  (rw (retry_rounds, r) (refused node waits e r)))
                        ]
              ]
        | inr gone ↦ rw (retry_rounds, gone) (asleep gone)
      ]

-- What a round leaves to those after it.
module _ (to_string : Uuid → Text) (self : Self) (id : JobId) (request : SubmitJobRequest)
    (scheduling : SchedulingRequest) (rounds : ℕ → Round) (n i : ℕ) (w : World) where
  pub round_asleep :
      is_waiting (get id ((rounds i).0 w).jobs) ≡ false
      → retry_rounds to_string self id request scheduling rounds (suc n) i w
        ≡ record { accepted = false; effects = []; world = (rounds i).0 w }
  unfolding retry_rounds
  round_asleep gone = rw (retry_rounds, gone) refl

  pub round_idle :
      is_waiting (get id ((rounds i).0 w).jobs) ≡ true
      → pick_node to_string self.local_node ((rounds i).0 w).cluster scheduling ≡ none
      → retry_rounds to_string self id request scheduling rounds (suc n) i w
        ≡ retry_rounds to_string self id request scheduling rounds n (suc i) ((rounds i).0 w)
  unfolding retry_rounds
  round_idle waits e = rw (retry_rounds, waits) (rw (retry_rounds, e) refl)

  module _ (node : NodeId) (waits : is_waiting (get id ((rounds i).0 w).jobs) ≡ true)
      (picked : pick_node to_string self.local_node ((rounds i).0 w).cluster scheduling
        ≡ some node) where
    pub round_taken :
        let d = dispatch_to_assigned to_string self (rounds i).1 ((rounds i).0 w) node id request in
        d.accepted ≡ true → retry_rounds to_string self id request scheduling rounds (suc n) i w ≡ d
    unfolding retry_rounds dispatch_to_assigned
    round_taken a = rw (retry_rounds, waits) (rw (retry_rounds, picked) (rw (retry_rounds, a) refl))

    pub round_refused :
        let d = dispatch_to_assigned to_string self (rounds i).1 ((rounds i).0 w) node id request in
        d.accepted ≡ false
        → let rest = retry_rounds to_string self id request scheduling rounds n (suc i) d.world in
          retry_rounds to_string self id request scheduling rounds (suc n) i w
          ≡ record rest { effects = d.effects ++ rest.effects }
    unfolding retry_rounds
    round_refused r =
        rw (retry_rounds, waits) (rw (retry_rounds, picked) (rw (retry_rounds, r) refl))
