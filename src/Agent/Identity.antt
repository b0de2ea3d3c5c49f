-- ===== src/Agent/Identity.antt =====
-- agent/src/node/mod.rs: the id that a node keeps in its directory of data, and its profile. Reading and
-- writing the file succeeds, and the number of processors and /proc/meminfo are arguments.
pub mod Persistence
use all4one.Prelude.{
  ℕ, zero, suc, ◌+◌, ◌-◌, ◌*◌, ◌/◌, ◌%◌, ◌^◌, Bool, true, false, ◌&&◌, Option, none, some, List, [],
  ◌∷◌, Text, Map, codes, get, insert, get_elem?, split, starts_with, trim, is_whitespace, is_empty,
  ltb, nat_eq, list_eq, ◌==◌, if◌then◌else◌,
}
use mathlib.Core.Option
use all4one.Common.{NodeId, Uuid, NodeProfile}
use all4one.Storage.Chunks.{Files, read_file}
use all4one.Cluster.Discovery.{parse_digits, drop_plus}
use all4one.Agent.Config.{AgentConfig}

unfoldable pub node_id_path : Text
node_id_path = codes "node-id"

-- `node_id`; `fresh` is the id that would be made. None stands for a file that holds no id.
unfoldable pub node_id :
    (to_string : Uuid → Text) (parse_str : Text → Option Uuid) (fresh : NodeId)
    → Files
    → Option NodeId × Files
node_id to_string parse_str fresh files = elim (read_file node_id_path files) [
  | some raw ↦ (parse_str (trim raw), files)
  | none ↦ (some fresh, insert node_id_path (to_string fresh) files)
]

-- `split_whitespace`: the words of a text; the first is what stands before the first white space.
unfoldable pub word_parts : Text → Text × List Text
word_parts [] = ([], [])
word_parts (c ∷ t) =
    let (w, ws) = word_parts t in if is_whitespace c then ([], w ∷ ws) else (c ∷ w, ws)

unfoldable pub non_empty : List Text → List Text
non_empty [] = []
non_empty (w ∷ ws) = let rest = non_empty ws in if is_empty w then rest else w ∷ rest

unfoldable pub split_whitespace : Text → List Text
unfolding word_parts non_empty
split_whitespace t = let (w, ws) = word_parts t in non_empty (w ∷ ws)

abbrev below_u64 : Option ℕ → Option ℕ
below_u64 none = none
below_u64 (some n) = if ltb n (2 ^ 64) then some n else none

-- `parse::<u64>()`.
unfoldable pub parse_u64 : Text → Option ℕ
unfolding parse_digits
parse_u64 t = elim (drop_plus t) [ [] ↦ none | c ∷ ds ↦ below_u64 (parse_digits 0 (c ∷ ds)) ]

unfoldable pub find_line : (key : Text) → List Text → Option Text
find_line key [] = none
find_line key (line ∷ lines) =
    let rest = find_line key lines in if starts_with key line then some line else rest

-- The number after the key, on the first line that starts with it. A carriage return at the end of a
-- line is white space, so that it need not be cut off.
unfoldable pub parse_meminfo_kb : (raw key : Text) → Option ℕ
unfolding split_whitespace parse_u64 find_line
parse_meminfo_kb raw key = elim (find_line key (split b'\n' raw)) [
  | none ↦ none
  | some line ↦ elim (get_elem? (split_whitespace line) 1) [ none ↦ none | some n ↦ parse_u64 n ]
]

-- The loop over the two keys; `as u32` keeps the low 32 bits.
unfoldable pub memory_of : (raw : Text) → List Text → Option ℕ
memory_of raw [] = none
memory_of raw (key ∷ keys) =
    let rest = memory_of raw keys in
    elim (parse_meminfo_kb raw key) [
      | none ↦ rest
      | some kb ↦ if ltb 0 (kb / 1024) then some ((kb / 1024) % 2 ^ 32) else rest
    ]

abbrev or_1024 : Option ℕ → ℕ
or_1024 none = 1024
or_1024 (some mb) = mb

-- On Linux, where `meminfo` is the text of /proc/meminfo if it can be read.
unfoldable pub detect_memory_mb : (meminfo : Option Text) → ℕ
detect_memory_mb none = 1024
detect_memory_mb (some raw) =
    or_1024 (memory_of raw (codes "MemAvailable:" ∷ codes "MemTotal:" ∷ []))

unfoldable pub profile :
    (parallelism : Option ℕ) (meminfo : Option Text) → AgentConfig → NodeId → NodeProfile
profile parallelism meminfo c id = record {
  id = id;
  tier = c.node.tier;
  availability = c.node.availability;
  quorum_participant = c.node.quorum_participant;
  resources = record {
    cpu_cores = elim parallelism [ none ↦ 1 | some n ↦ n % 2 ^ 32 ];
    memory_mb = detect_memory_mb meminfo;
    disk_mb = none;
  };
  capabilities = record {
    has_docker = c.capabilities.has_docker;
    has_python = c.capabilities.has_python;
    java = c.capabilities.java;
    has_wasm = c.capabilities.has_wasm;
    gpu_enabled = c.capabilities.gpu_enabled;
    storage_node = c.roles.storage;
  };
}
