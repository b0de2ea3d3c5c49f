-- ===== src/Jobs/Conversions.antt =====
-- agent/src/grpc_client/mod.rs: the names of runtimes and of the states of a job between nodes, and
-- the address of a node.
use all4one.Prelude.{
  ◌≡◌, refl, ◌||◌, Text, codes, starts_with, ◌++◌, nat_eq, list_eq, ◌==◌, if◌then◌else◌,
}
use all4one.Common.{
  Runtime, docker, python, jar, executable, wasm, JobStatus, queued, scheduled, running, completed,
  failed, cancelled,
}

unfoldable pub runtime_to_string : Runtime → Text
runtime_to_string docker = codes "docker"
runtime_to_string python = codes "python"
runtime_to_string jar = codes "jar"
runtime_to_string executable = codes "executable"
runtime_to_string wasm = codes "wasm"

unfoldable pub job_status_to_string : JobStatus → Text
job_status_to_string queued = codes "queued"
job_status_to_string scheduled = codes "scheduled"
job_status_to_string running = codes "running"
job_status_to_string completed = codes "completed"
job_status_to_string failed = codes "failed"
job_status_to_string cancelled = codes "cancelled"

unfoldable pub job_status_from_string : Text → JobStatus
job_status_from_string value =
    if value == codes "queued"
    then queued
    else if value == codes "scheduled"
    then scheduled
    else if value == codes "running"
    then running
    else if value == codes "completed"
    then completed
    else if value == codes "failed"
    then failed
    else if value == codes "cancelled"
    then cancelled
    else failed

unfoldable pub runtime_from_string : Text → Runtime
runtime_from_string value =
    if value == codes "docker"
    then docker
    else if value == codes "python"
    then python
    else if value == codes "jar"
    then jar
    else if value == codes "wasm"
    then wasm
    else if value == codes "executable"
    then executable
    else executable

-- The names are read back as they were written: a runtime and a state arrive as they were sent.
pub from_string-to_string :
    (r : Runtime) (s : JobStatus)
    → (runtime_from_string (runtime_to_string r) ≡ r)
      × (job_status_from_string (job_status_to_string s) ≡ s)
unfolding runtime_from_string runtime_to_string job_status_from_string job_status_to_string
from_string-to_string r s = (runtimes r, states s)
  where
    runtimes : (r : Runtime) → runtime_from_string (runtime_to_string r) ≡ r
    runtimes docker = refl
    runtimes python = refl
    runtimes jar = refl
    runtimes executable = refl
    runtimes wasm = refl

    states : (s : JobStatus) → job_status_from_string (job_status_to_string s) ≡ s
    states queued = refl
    states scheduled = refl
    states running = refl
    states completed = refl
    states failed = refl
    states cancelled = refl

-- An address without a scheme gets one.
unfoldable pub normalize_endpoint : Text → Text
normalize_endpoint endpoint =
    if starts_with (codes "http://") endpoint || starts_with (codes "https://") endpoint
    then endpoint
    else codes "http://" ++ endpoint
