-- ===== src/Jobs/Executor/Limits.antt =====
-- The memory of the processes that `build_command` of agent/src/executor/mod.rs describes.
use all4one.Prelude.{◌*◌, ◌^◌, ◌<◌, ◌≡◌, ◌≢◌, refl, ap, some, List, Text, arith}
use all4one.Common.{Runtime, docker, python, jar, executable, wasm, JobResources}
use all4one.Jobs.Executor.{limit_bytes, build_command}

exact :
    (r : JobResources) → r.memory_mb < 2 ^ 32 → some (limit_bytes r) ≡ some (r.memory_mb * 2 ^ 20)
exact r small = let e : limit_bytes r ≡ r.memory_mb * 2 ^ 20 = omega arith in ap some e

-- For every runtime but Docker, and for memory that is a number of 32 bits, the process may use as many
-- bytes as the job asks for in units of 2 ^ 20: the product never saturates.
pub build_command-memory_limit :
    (runtime : Runtime) (source : Text) (args : List Text) (r : JobResources)
    → runtime ≢ docker
    → r.memory_mb < 2 ^ 32
    → (build_command runtime source args r).memory_limit ≡ some (r.memory_mb * 2 ^ 20)
unfolding build_command
build_command-memory_limit docker source args r other small = absurd (other refl)
build_command-memory_limit python source args r other small = exact r small
build_command-memory_limit jar source args r other small = exact r small
build_command-memory_limit executable source args r other small = exact r small
build_command-memory_limit wasm source args r other small = exact r small
