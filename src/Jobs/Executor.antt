-- ===== src/Jobs/Executor.antt =====
-- agent/src/executor/mod.rs: the effects of `spawn_job` on the map of jobs, each under its lock, what
-- it reports to the node that a job came from, and `build_command`. The process itself and its output
-- are the operating system's: whether it starts and how it ends are arguments.
pub mod Lifecycle
pub mod Limits
pub mod Endings
use all4one.Prelude.{
  ℕ, zero, suc, ◌+◌, ◌*◌, ◌-◌, ◌^◌, Bool, true, false, Option, none, some, List, [], ◌∷◌, ◌++◌,
  Text, Map, codes, decimal, get, insert, min, nat_eq, if◌then◌else◌,
}
use all4one.Common.{
  JobId, NodeId, Runtime, docker, python, jar, executable, wasm, JobStatus, running, completed,
  failed, cancelled, queued, scheduled, JobResources,
}
use all4one.Jobs.Records.{ℤ, pos, negsuc, JobRecord, Jobs, Report}

-- `format!("{code}")`.
abbrev pub show_code : ℤ → Text
show_code (pos n) = decimal n
show_code (negsuc n) = b'-' ∷ decimal (suc n)

-- `exit.code().unwrap_or(-1)`.
abbrev pub code_or : Option ℤ → ℤ
code_or none = negsuc 0
code_or (some c) = c

abbrev pub is_zero : ℤ → Bool
is_zero (pos zero) = true
is_zero (pos (suc n)) = false
is_zero (negsuc n) = false

abbrev pub is_cancelled : JobStatus → Bool
is_cancelled cancelled = true
is_cancelled queued = false
is_cancelled scheduled = false
is_cancelled running = false
is_cancelled completed = false
is_cancelled failed = false

abbrev pub exit_message : ℤ → Text
exit_message code = codes "process exited with code " ++ show_code code

-- The first lock: `None` is the return where the job is not there.
unfoldable pub start_job : (now : ℕ) → JobId → Jobs → Option Jobs
start_job now id jobs = elim (get id jobs) [
  | none ↦ none
  | some job ↦ some (insert id (record job { status = running; updated_at = now }) jobs)
]

-- The lock after a failure to spawn or to wait, with its message.
unfoldable pub fail_job : (now : ℕ) → JobId → Text → Jobs → Jobs
fail_job now id message jobs = elim (get id jobs) [
  | none ↦ jobs
  | some job ↦
      insert id (record job { status = failed; error = some message; updated_at = now }) jobs
]

-- The record of a job whose process ended, where the job was not cancelled.
abbrev pub ended : (now : ℕ) → ℤ → JobRecord → JobRecord
ended now code job =
    if is_zero code
    then record job { status = completed; exit_code = some (pos 0); updated_at = now }
    else record job {
      status = failed;
      exit_code = some code;
      error = some (exit_message code);
      updated_at = now;
    }

-- The lock after the process ended.
unfoldable pub finish_job : (now : ℕ) → JobId → Option ℤ → Jobs → Jobs
finish_job now id exit jobs = elim (get id jobs) [
  | none ↦ jobs
  | some job ↦
      if is_cancelled job.status then jobs else insert id (ended now (code_or exit) job) jobs
]

-- The report of a process that ended, and of a failure to spawn or to wait.
unfoldable pub exit_report : Option ℤ → Report
exit_report exit =
    let code = code_or exit in
    if is_zero code
    then record { status = completed; exit_code = some code; error = none }
    else record { status = failed; exit_code = some code; error = some (exit_message code) }

unfoldable pub failure_report : Text → Report
failure_report message = record { status = failed; exit_code = none; error = some message }

-- How the process of a job ends.
pub data Outcome : Type 0 where
  spawn_failed : (reason : Text) → Outcome
  exited : Option ℤ → Outcome
  wait_failed : (reason : Text) → Outcome

unfoldable pub end_job : (now : ℕ) → JobId → Outcome → Jobs → Jobs
end_job now id (spawn_failed e) jobs = fail_job now id (codes "spawn failed: " ++ e) jobs
end_job now id (exited exit) jobs = finish_job now id exit jobs
end_job now id (wait_failed e) jobs = fail_job now id (codes "wait failed: " ++ e) jobs

-- What is sent where the job has a callback.
unfoldable pub outcome_report : Outcome → Report
outcome_report (spawn_failed e) = failure_report (codes "spawn failed: " ++ e)
outcome_report (exited exit) = exit_report exit
outcome_report (wait_failed e) = failure_report (codes "wait failed: " ++ e)

-- A command line, and the limit on the memory of its process, in bytes.
pub record Command : Type 0 where
  pub program : Text
  pub args : List Text
  pub memory_limit : Option ℕ

-- `saturating_mul` on 64 bits.
abbrev pub saturating_mul : ℕ → ℕ → ℕ
saturating_mul a b = min (a * b) (2 ^ 64 - 1)

abbrev pub limit_bytes : JobResources → ℕ
limit_bytes r = saturating_mul (saturating_mul r.memory_mb 1024) 1024

abbrev pub python_args : Text → List Text → List Text
python_args source [] = codes "-c" ∷ source ∷ []
python_args source (a ∷ args) = a ∷ args

abbrev pub docker_args : Text → List Text → JobResources → List Text
docker_args source args r =
    let memory = decimal r.memory_mb ++ codes "m" in
    codes "run"
    ∷ codes "--rm"
    ∷ codes "--memory"
    ∷ memory
    ∷ codes "--memory-swap"
    ∷ memory
    ∷ codes "--cpus"
    ∷ decimal r.cpu_cores
    ∷ source
    ∷ args

-- On Unix.
unfoldable pub build_command : Runtime → Text → List Text → JobResources → Command
build_command executable source args r = record {
  program = source;
  args = args;
  memory_limit = some (limit_bytes r);
}
build_command python source args r = record {
  program = codes "python3";
  args = python_args source args;
  memory_limit = some (limit_bytes r);
}
build_command jar source args r = record {
  program = codes "java";
  args = codes "-jar" ∷ source ∷ args;
  memory_limit = some (limit_bytes r);
}
build_command wasm source args r = record {
  program = codes "wasmtime";
  args = source ∷ args;
  memory_limit = some (limit_bytes r);
}
build_command docker source args r = record {
  program = codes "docker";
  args = docker_args source args r;
  memory_limit = none;
}
