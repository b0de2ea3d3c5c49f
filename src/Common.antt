-- ===== src/Common.antt =====
-- The shared data types: common/src/types.rs, job.rs and node.rs.
-- A UUID is the number of its 128 bits, a moment in time a number, and text a list of code points.
use all4one.Prelude.{ℕ, Bool, Option, Text, Map}

-- The macro `define_id` wraps a UUID in a type of its own for each kind of id.
abbrev pub Uuid : Type 0
Uuid = ℕ

abbrev pub NodeId : Type 0
NodeId = Uuid

abbrev pub JobId : Type 0
JobId = Uuid

pub data JobStatus : Type 0 where
  queued scheduled running completed failed cancelled : JobStatus

pub data Runtime : Type 0 where
  docker python jar executable wasm : Runtime

pub record JobResources : Type 0 where
  pub cpu_cores : ℕ
  pub memory_mb : ℕ

pub data NodeStatus : Type 0 where
  online suspected offline : NodeStatus

pub record NodeResources : Type 0 where
  pub cpu_cores : ℕ
  pub memory_mb : ℕ
  pub disk_mb : Option ℕ

pub record NodeCapabilities : Type 0 where
  pub has_docker : Bool
  pub has_python : Option Text
  pub java : Option Text
  pub has_wasm : Bool
  pub gpu_enabled : Bool
  pub storage_node : Bool

pub record NodeProfile : Type 0 where
  pub id : NodeId
  pub tier : ℕ
  pub availability : Text
  pub quorum_participant : Bool
  pub resources : NodeResources
  pub capabilities : NodeCapabilities

pub record NodeInfo : Type 0 where
  pub profile : NodeProfile
  pub status : NodeStatus
  pub version : Text
  pub grpc_endpoint : Text
  pub rest_endpoint : Text

pub record ClusterState : Type 0 where
  pub nodes : Map NodeId NodeInfo
  pub version : ℕ
