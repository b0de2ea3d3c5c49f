-- ===== src/Jobs/Queries/Listing.antt =====
-- agent/src/api_rest/mod.rs: what `list_jobs` gives.
use all4one.Prelude.{
  ℕ, zero, suc, ◌-◌, ◌≤◌, ◌≡◌, ◌∙◌, refl, ap, Bool, false, not, ◌&&◌, none, some, List, [], ◌∷◌,
  Text, length, length-drop, drop, keep, any, values, ltb, min, nat_eq, list_eq, inl, inr,
  Bool-cases, arith,
}
use all4one.Common.{Uuid}
use all4one.Jobs.Records.{JobRecord, Jobs}
use all4one.Jobs.Queries.{
  ListJobsQuery, insert_by_age, sort_by_age, last_of, has_status, on_node, list_jobs,
}

-- No job comes before an older one.
abbrev pub OldestFirst : List JobRecord → Type 0
OldestFirst [] = Unit
OldestFirst (j ∷ jobs) = (any (λ k. ltb k.created_at j.created_at) jobs ≡ false) × OldestFirst jobs

any-insert_by_age :
    (p : JobRecord → Bool) (j : JobRecord) (jobs : List JobRecord)
    → any p (insert_by_age j jobs) ≡ any p (j ∷ jobs)
unfolding insert_by_age
any-insert_by_age p j [] = refl
any-insert_by_age p j (k ∷ jobs) = ground (arith, any-insert_by_age p j jobs)

any-sort_by_age :
    (p : JobRecord → Bool) (jobs : List JobRecord) → any p (sort_by_age jobs) ≡ any p jobs
unfolding sort_by_age
any-sort_by_age p [] = refl
any-sort_by_age p (j ∷ jobs) =
    any-insert_by_age p j (sort_by_age jobs) ∙ ground (arith, any-sort_by_age p jobs)

-- A job is not newer than the jobs that a job not older than it is not newer than.
none_before :
    (j k : JobRecord) (jobs : List JobRecord)
    → j.created_at ≤ k.created_at
    → any (λ i. ltb i.created_at k.created_at) jobs ≡ false
    → any (λ i. ltb i.created_at j.created_at) jobs ≡ false
none_before j k [] older h = refl
none_before j k (i ∷ jobs) older h = ground (arith, none_before j k jobs older)

OldestFirst-insert :
    (j : JobRecord) (jobs : List JobRecord) → OldestFirst jobs → OldestFirst (insert_by_age j jobs)
unfolding insert_by_age
OldestFirst-insert j [] sorted = (refl, tt)
OldestFirst-insert j (k ∷ jobs) sorted = elim (Bool-cases (ltb k.created_at j.created_at)) [
  | inl older ↦
      rw (insert_by_age, older)
        (
          any-insert_by_age (λ i. ltb i.created_at k.created_at) j jobs
              ∙ ground (arith, older, sorted.0),
          OldestFirst-insert j jobs sorted.1,
        )
  | inr newer ↦
      let le : j.created_at ≤ k.created_at = ground (arith, newer) in
      let before = none_before j k jobs le sorted.0 in
      rw (insert_by_age, newer) (ground (arith, newer, before), sorted)
]

OldestFirst-sort : (jobs : List JobRecord) → OldestFirst (sort_by_age jobs)
unfolding sort_by_age
OldestFirst-sort [] = tt
OldestFirst-sort (j ∷ jobs) = OldestFirst-insert j (sort_by_age jobs) (OldestFirst-sort jobs)

OldestFirst-drop : (n : ℕ) (jobs : List JobRecord) → OldestFirst jobs → OldestFirst (drop n jobs)
OldestFirst-drop zero jobs h = h
OldestFirst-drop (suc n) [] h = tt
OldestFirst-drop (suc n) (j ∷ jobs) h = OldestFirst-drop n jobs h.1

any-drop :
    (p : JobRecord → Bool) (n : ℕ) (jobs : List JobRecord)
    → any p jobs ≡ false
    → any p (drop n jobs) ≡ false
any-drop p zero jobs h = h
any-drop p (suc n) [] h = refl
any-drop p (suc n) (j ∷ jobs) h = any-drop p n jobs (ground (arith, h))

length-insert_by_age :
    (j : JobRecord) (jobs : List JobRecord) → length (insert_by_age j jobs) ≡ suc (length jobs)
unfolding insert_by_age
length-insert_by_age j [] = refl
length-insert_by_age j (k ∷ jobs) = ground (arith, length-insert_by_age j jobs)

length-sort_by_age : (jobs : List JobRecord) → length (sort_by_age jobs) ≡ length jobs
unfolding sort_by_age
length-sort_by_age [] = refl
length-sort_by_age (j ∷ jobs) =
    length-insert_by_age j (sort_by_age jobs) ∙ ap suc (length-sort_by_age jobs)

-- Two filters, one after the other, leave no job that one of them drops, and only jobs of the list.
any-keep :
    (p q : JobRecord → Bool) (jobs : List JobRecord)
    → any (λ j. not (p j && q j)) (keep p (keep q jobs)) ≡ false
any-keep p q [] = refl
any-keep p q (j ∷ jobs) = ground (arith, any-keep p q jobs)

last_of_lem :
    (limit : ℕ) (jobs : List JobRecord)
    → last_of (some limit) jobs ≡ drop (length jobs - limit) jobs
last_of_lem limit jobs = elim (Bool-cases (ltb limit (length jobs))) [
  | inl more ↦ rw more refl
  | inr all ↦ let e : length jobs - limit ≡ 0 = ground (arith, all) in rw (all, e) refl
]

module _ (to_string : Uuid → Text) (q : ListJobsQuery) (jobs : Jobs) where
  -- A listing holds only jobs of the state and of the node that are asked for, each older job before
  -- the newer ones. There are as many as match, or as many as the limit allows where that is less. The
  -- ones left out are at the front of the listing without a limit, in which older jobs come first too.
  pub list_jobs_lem :
      (limit : ℕ)
      → q.limit ≡ some limit
      → let listed = list_jobs to_string q jobs in
        (any (λ j. not (on_node to_string q.node_id j && has_status q.status j)) listed ≡ false)
        × OldestFirst listed
        × OldestFirst (list_jobs to_string (record q { limit = none }) jobs)
        × (length listed
            ≡ min limit (
                length
                  (keep (on_node to_string q.node_id) (keep (has_status q.status) (values jobs)))))
        × (listed
            ≡ drop
                (length (list_jobs to_string (record q { limit = none }) jobs) - limit)
                (list_jobs to_string (record q { limit = none }) jobs))
  unfolding list_jobs
  list_jobs_lem limit limited =
      let matching =
        keep (on_node to_string q.node_id) (keep (has_status q.status) (values jobs)) in
      let sorted = sort_by_age matching in
      let p = λ (j : JobRecord). not (on_node to_string q.node_id j && has_status q.status j) in
      let n = length sorted - limit in
      rw (limited, last_of_lem limit sorted)
        (
          any-drop p n sorted (
              any-sort_by_age p matching
              ∙ any-keep (on_node to_string q.node_id) (has_status q.status) (values jobs)),
          OldestFirst-drop n sorted (OldestFirst-sort matching),
          OldestFirst-sort matching,
          omega (arith, length-drop n sorted, length-sort_by_age matching),
          refl,
        )
