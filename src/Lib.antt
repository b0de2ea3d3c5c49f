-- ===== src/Lib.antt =====
-- all4one: agents that form a cluster, replicate a log of jobs, schedule jobs on nodes and store
-- objects. This library models the agent's core and proves what makes it correct.
--
-- The parts, and the files that model them (paths from the repository's root):
--   common/src/{types,node,job}.rs: the shared records and enums. Common.
--   agent/src/raft/commands.rs: the commands of the replicated log. Raft/Commands.
--   agent/src/raft/store.rs, the state machine: `apply_command` and the loop of `apply`.
--     Raft/Machine; `Utc::now()` is a clock that is read once for each entry.
--   agent/src/raft/store.rs, the log store: `append`, `truncate`, `purge`, `try_get_log_entries`,
--     `get_log_state`, votes and the committed id. Raft/Log; the trees of sled are a parameter.
--   agent/src/raft/store.rs, `SledStateMachine`: opening, applying and snapshots. Raft/Snapshot.
--   agent/src/storage/mod.rs: the policies, and every place that reads a policy's name.
--     Storage/Policy; the metadata: Storage/Metadata.
--   agent/src/storage/chunks.rs: erasure coding, Storage/Erasure; `put_chunks` and `get_chunks`,
--     Storage/Chunks. The file system is a map from paths to contents.
--   agent/src/storage/index.rs: metadata and buckets. Storage/Index.
--   agent/src/storage/placement.rs: Storage/Placement.
--   agent/src/scheduler/mod.rs: `pick_node`. Cluster/Scheduler.
--   agent/src/gossip/mod.rs: a round of the failure detector. Cluster/Failures.
--   agent/src/discovery/mod.rs: the updates of what is known of other nodes. Cluster/Discovery.
--   agent/src/api_rest/mod.rs: the records of jobs, deleting a job, taking over the end of a job from
--     another node, Jobs/Records; `enqueue_remote_job`, Jobs/Submission; `dispatch_to_assigned` and
--     `spawn_retry_dispatch`, Jobs/Dispatch; `post_job` and `enqueue_job`, Jobs/Enqueue; `list_jobs`
--     and `get_job`, Jobs/Queries; the events for operators, Rest/Events and Rest/JobEvents; the secret
--     of a request, Rest/Access; the nodes, Rest/Nodes; buckets and objects, Rest/Objects.
--   agent/src/executor/mod.rs: the locks of `spawn_job` as steps, its reports, and `build_command`.
--     Jobs/Executor.
--   agent/src/grpc_client/mod.rs: the names of runtimes and states, Jobs/Conversions; the messages,
--     Grpc/Messages.
--   agent/src/grpc_server/mod.rs: `submit_job` and `report_job_status`, Grpc/Server; `join`, Grpc/Join;
--     `transfer_chunk` and `fetch_chunk`, with the sending of an object to its peers, Grpc/Chunks.
--   agent/src/certificates/mod.rs: the files of an authority and of a node, and the list of revoked
--     nodes. Certificates.
--   agent/src/config: the schema, its defaults and `load`. Agent/Config.
--   agent/src/node/mod.rs: the id of a node, its memory and its profile. Agent/Identity.
--   agent/src/main.rs: the arguments, the address of a node and `enroll_with_seed_ca`, with the members
--     that `init_raft` of agent/src/raft/mod.rs starts with. Agent/Startup.
--   agent/src/raft/network.rs: the calls of openraft to another node, Raft/Network/Client;
--     agent/src/grpc_server/raft_service.rs: taking them there, Raft/Network/Service.
--
-- How they interact: openraft calls the log store and the state machine; the state machine's snapshot
-- stands for the entries that it covers. `put_chunks` encodes an object, writes its shards and then its
-- metadata through the index; `get_chunks` reads the policy from the metadata and then the shards.
-- Discovery and the failure detector keep the map of nodes from which the scheduler chooses.
--
-- An operation on a database or a file system takes it as an argument and returns it. Fallible code
-- returns a `Result`, whose third case is a panic. A key-value map is an association list. Text is a
-- list of code points, bytes a list of numbers; where text becomes a key of a database, its code points
-- stand for its bytes in UTF-8, whose order and equality they have.
--
-- Libraries are parameters with laws (External): sled, serde_json for one type, sha2 and zstd, and as
-- plain functions the uuid library's `to_string` and `parse_str`, what rcgen issues, what toml reads and
-- what a node of openraft answers. External/SledModel is a database that meets sled's laws, which the
-- examples use.
--
-- Bounds: loops are structural recursion on the list or on the number of rounds that are left, with no
-- fuel. `decimal` prints at most 20 digits, as many as a number of 64 bits has. Words of the machine
-- have 64 bits; an index is below 2 ^ 64.
--
-- Not modelled: input and output errors of the disk, the network, tasks and locks beyond the steps that
-- the operations are cut into, the parts of openraft (elections, replication), the router and the
-- streams of api_rest, and what starts tasks, servers and openraft in raft/mod.rs and main.rs of
-- agent/src.
pub mod Prelude
pub mod Common
pub mod External
pub mod Raft
pub mod Rest
pub mod Grpc
pub mod Storage
pub mod Certificates
pub mod Cluster
pub mod Jobs
pub mod Agent
pub mod Examples
