-- ===== src/Jobs/Queries.antt =====
-- agent/src/api_rest/mod.rs: the jobs that a client asks for, `list_jobs` and `get_job`.
pub mod Listing
use all4one.Prelude.{
  ℕ, ◌-◌, Bool, true, false, Option, none, some, List, [], ◌∷◌, Text, length, drop, keep, values,
  get, leb, ltb, nat_eq, list_eq, ◌==◌, if◌then◌else◌,
}
use all4one.Common.{JobId, NodeId, Uuid}
use all4one.Storage.Policy.{to_lowercase}
use all4one.Jobs.Records.{JobRecord, Jobs}
use all4one.Rest.JobEvents.{debug_job_status}

pub record ListJobsQuery : Type 0 where
  pub status : Option Text
  pub node_id : Option Text
  pub limit : Option ℕ

-- `sort_by_key` by the time of creation, which keeps the order of equal times.
unfoldable pub insert_by_age : JobRecord → List JobRecord → List JobRecord
insert_by_age j [] = j ∷ []
insert_by_age j (k ∷ jobs) =
    let rest = insert_by_age j jobs in
    if ltb k.created_at j.created_at then k ∷ rest else j ∷ k ∷ jobs

unfoldable pub sort_by_age : List JobRecord → List JobRecord
unfolding insert_by_age
sort_by_age [] = []
sort_by_age (j ∷ jobs) = insert_by_age j (sort_by_age jobs)

-- The last `limit` of a list.
abbrev pub last_of : Option ℕ → List JobRecord → List JobRecord
last_of none jobs = jobs
last_of (some limit) jobs =
    if ltb limit (length jobs) then drop (length jobs - limit) jobs else jobs

-- `to_lowercase` on letters of ASCII: the names of the states have no others.
abbrev pub has_status : Option Text → JobRecord → Bool
has_status none j = true
has_status (some status) j = to_lowercase (debug_job_status j.status) == to_lowercase status

module _ (to_string : Uuid → Text) where
  abbrev pub on_node : Option Text → JobRecord → Bool
  on_node none j = true
  on_node (some node) j = to_string j.assigned_to == node

  unfoldable pub list_jobs : ListJobsQuery → Jobs → List JobRecord
  list_jobs q jobs =
      last_of q.limit
        (sort_by_age (keep (on_node q.node_id) (keep (has_status q.status) (values jobs))))

-- What the handler of one job answers.
pub data Found : Type 0 where
  bad_request not_found : Found
  found : JobRecord → Found

unfoldable pub get_job : Option JobId → Jobs → Found
get_job none jobs = bad_request
get_job (some id) jobs = elim (get id jobs) [ none ↦ not_found | some job ↦ found job ]
