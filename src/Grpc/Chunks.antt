-- ===== src/Grpc/Chunks.antt =====
-- agent/src/grpc_client/mod.rs, agent/src/grpc_server/mod.rs and the end of `put_object_handler` in
-- agent/src/api_rest/mod.rs: shards that a node sends to its peers. Errors of the disk are left out, as
-- in the model of the chunks.
pub mod Collecting
pub mod Replication
use all4one.Prelude.{
  ℕ, ◌+◌, Bool, true, false, not, ◌&&◌, Option, none, some, List, [], ◌∷◌, ◌++◌, Text, Bytes, Map,
  codes, get, insert, values, keep, map, length, Result, ok, err, panic, nat_eq, list_eq, ◌==◌,
  if◌then◌else◌,
}
use all4one.Common.{NodeId, NodeInfo}
use all4one.Cluster.Scheduler.{is_online}
use all4one.Storage.Policy.{parse_policy}
use all4one.Storage.Metadata.{ObjectMetadata, StorageFault}
use all4one.Storage.Index
use all4one.Storage.Chunks.{
  ChunkDeps, Store, shard_object_id, shard_path, meta_path, shard_meta, read_file,
}

-- `proto::TransferChunkRequest`.
pub record TransferMessage : Type 0 where
  pub bucket : Text
  pub key : Text
  pub shard_index : ℕ
  pub content : Bytes
  pub hash : Text
  pub policy : Text
  pub object_size : ℕ
  pub etag : Text

-- `proto::TransferChunkResponse`.
pub record TransferReply : Type 0 where
  pub accepted : Bool
  pub error : Text

-- `proto::FetchChunkResponse`.
pub record FetchReply : Type 0 where
  pub content : Bytes
  pub hash : Text
  pub found : Bool

-- What the client `transfer_chunk` makes of one shard of `read_shards`.
abbrev pub transfer_message : ObjectMetadata → ℕ × Text × Bytes → TransferMessage
transfer_message m (i, hash, shard) = record {
  bucket = m.bucket;
  key = m.key;
  shard_index = i;
  content = shard;
  hash = hash;
  policy = m.policy;
  object_size = m.size_bytes;
  etag = m.etag;
}

-- The messages for one peer, of what `read_shards` gave; on an error there are none.
unfoldable pub transfers_of :
    ObjectMetadata → Result StorageFault (List (ℕ × Text × Bytes)) → List TransferMessage
transfers_of m (ok shards) = map (transfer_message m) shards
transfers_of m (err e) = []
transfers_of m panic = []

-- The peers that an object goes to: other nodes that are online and store.
abbrev pub is_storage_peer : NodeId → NodeInfo → Bool
is_storage_peer self n =
    n.profile.capabilities.storage_node && is_online n.status && not (n.profile.id == self)

abbrev pub endpoint_of : NodeInfo → Text
endpoint_of n = n.grpc_endpoint

unfoldable pub storage_peers : NodeId → Map NodeId NodeInfo → List Text
storage_peers self nodes = map endpoint_of (keep (is_storage_peer self) (values nodes))

-- What a client of `fetch_chunk` gets.
abbrev pub fetched : FetchReply → Option Bytes
fetched r = if r.found then some r.content else none

module _ (deps : ChunkDeps) where
  open deps use {index, codec}

  -- The server's `transfer_chunk` on a node with or without the storage role; `clock` gives the two
  -- readings of the clock. That the metadata cannot be written is not noticed.
  unfoldable pub transfer_chunk :
      (storage : Bool) (clock : ℕ → Text)
      → TransferMessage
      → Store deps
      → TransferReply × Store deps
  transfer_chunk false clock m s =
      (record { accepted = false; error = codes "This node does not have the storage role" }, s)
  transfer_chunk true clock m s =
      let id = shard_object_id m.bucket m.key in
      let written = insert (shard_path m.bucket id m.shard_index) m.content s.files in
      (
        record { accepted = true; error = [] },
        record {
          files =
              insert (meta_path m.bucket id m.shard_index)
                (shard_meta m.shard_index m.hash m.object_size) written;
          db =
              (Index.put_object index (clock 0) (clock 1) m.bucket m.key m.etag m.object_size
                (parse_policy m.policy) (Index.create_bucket index m.bucket s.db)).1;
        },
      )

  unfoldable pub fetch_chunk : (bucket key : Text) → ℕ → Store deps → FetchReply
  fetch_chunk bucket key i s =
      elim (read_file (shard_path bucket (shard_object_id bucket key) i) s.files) [
        | none ↦ record { content = []; hash = []; found = false }
        | some shard ↦ record { content = shard; hash = codec.digest shard; found = true }
      ]

  -- A peer that is sent one message after the other; the clock of the n-th is `clocks n`.
  unfoldable pub receive_all :
      (clocks : ℕ → ℕ → Text) (n : ℕ) → List TransferMessage → Store deps → Store deps
  unfolding transfer_chunk
  receive_all clocks n [] s = s
  receive_all clocks n (m ∷ messages) s =
      receive_all clocks (n + 1) messages (transfer_chunk true (clocks n) m s).1
