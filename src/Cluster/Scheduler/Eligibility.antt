-- ===== src/Cluster/Scheduler/Eligibility.antt =====
-- Which nodes the tests of agent/src/scheduler/mod.rs let through.
use all4one.Prelude.{
  ◌≡◌, Bool, true, false, not, ◌&&◌, ◌||◌, ltb, Option, none, some, Text, nat_eq, list_eq, arith,
}
use all4one.Common.{
  NodeInfo, NodeStatus, online, suspected, offline, NodeCapabilities, Runtime, docker, python, jar,
  executable, wasm,
}
use all4one.Cluster.Scheduler.{SchedulingRequest, runtime_supported, is_candidate}

abbrev pub is_up : NodeStatus → Bool
is_up online = true
is_up suspected = false
is_up offline = false

abbrev pub is_given : Option Text → Bool
is_given none = false
is_given (some t) = true

-- Which nodes can run a job: what a runtime needs of a node, and what a request needs in all.
abbrev pub runs : NodeCapabilities → Runtime → Bool
runs c docker = c.has_docker
runs c python = is_given c.has_python
runs c jar = is_given c.java
runs c executable = true
runs c wasm = c.has_wasm

abbrev pub fits : SchedulingRequest → NodeInfo → Bool
fits req n =
    is_up n.status
    && (not (ltb n.profile.tier req.tier_min)
        && ((not req.require_docker || n.profile.capabilities.has_docker)
            && runs n.profile.capabilities req.runtime))

pub fits_lem :
    (req : SchedulingRequest) (n : NodeInfo)
    → (is_candidate req n && runtime_supported n req) ≡ fits req n
unfolding runtime_supported
fits_lem req n = ground arith
