-- ===== src/Rest/Objects.antt =====
-- agent/src/api_rest/mod.rs: the handlers of buckets and objects. A handler returns its answer and the
-- store; the one that stores an object also gives what is sent to the peers, in order.
pub mod Requests
use all4one.Prelude.{
  ℕ, Bool, true, false, ◌||◌, Option, none, some, List, [], ◌∷◌, ◌++◌, Text, Bytes, Map, codes, map,
  length, starts_with, Result, ok, err, panic, nat_eq, list_eq, ◌==◌, if◌then◌else◌,
}
use all4one.Common.{NodeId, NodeInfo}
use all4one.Storage.Policy.{StoragePolicy, parse_policy}
use all4one.Storage.Erasure.{too_short, prefix_exceeds}
use all4one.Storage.Metadata.{
  ObjectMetadata, StorageFault, object_not_found, json_write, json_read, compression_failed,
  decompression_failed, insufficient_shards, erasure_fault, data_corruption,
}
use all4one.Storage.Index
use all4one.Storage.Chunks.{ChunkDeps, Store, put_chunks, get_chunks, delete_object, read_shards}
use all4one.Grpc.Chunks.{TransferMessage, storage_peers, transfers_of}

-- The text of an error; `library` is the text of those that libraries give.
abbrev pub message : (library : StorageFault → Text) → StorageFault → Text
message library (object_not_found bucket key) =
    codes "Object not found: " ++ (bucket ++ (b'/' ∷ key))
message library insufficient_shards = codes "Insufficient shards to recover data"
message library (erasure_fault too_short) =
    codes "Erasure decoded data too short to contain length prefix"
message library (erasure_fault prefix_exceeds) = codes "Erasure length prefix exceeds decoded data"
message library (data_corruption expected got) =
    codes "Data corruption detected: expected " ++ (expected ++ (codes ", got " ++ got))
message library decompression_failed =
    codes "Decompression failed: " ++ library decompression_failed
message library compression_failed = library compression_failed
message library json_write = library json_write
message library json_read = library json_read

-- `contains`.
unfoldable pub contains : (part : Text) → Text → Bool
contains part [] = starts_with part []
contains part (c ∷ t) = let rest = contains part t in starts_with part (c ∷ t) || rest

-- What the handlers answer, by the status code.
pub data Answer : Type 0 where
  service_unavailable : Answer
  bucket_created : Text → Answer
  listed : List ObjectMetadata → Answer
  object_created : ObjectMetadata → Answer
  content : (etag : Text) → Bytes → Answer
  no_content : Answer
  not_found internal_error : Text → Answer
  panicked : Answer

abbrev pub policy_of : Option Text → StoragePolicy
policy_of none = parse_policy (codes "warm")
policy_of (some name) = parse_policy name

abbrev pub failure : Text → Answer
failure msg =
    if contains (codes "not found") msg || contains (codes "Object not found") msg
    then not_found msg
    else internal_error msg

-- `map(|m| m.etag).unwrap_or_default()`.
abbrev pub etag_or_empty : Result StorageFault ObjectMetadata → Text
etag_or_empty (ok m) = m.etag
etag_or_empty (err e) = []
etag_or_empty panic = []

-- Every peer gets every shard.
unfoldable pub fan_out : List Text → List TransferMessage → List (Text × TransferMessage)
fan_out [] messages = []
fan_out (peer ∷ peers) messages =
    map (λ (m : TransferMessage). (peer, m)) messages ++ fan_out peers messages

-- `role` tells whether the node has the storage role.
module _ (deps : ChunkDeps) (library : StorageFault → Text) (role : Bool) where
  open deps use {index}

  unfoldable pub create_bucket : Text → Store deps → Answer × Store deps
  create_bucket bucket s =
      if role
      then (bucket_created bucket, record s { db = Index.create_bucket index bucket s.db })
      else (service_unavailable, s)

  abbrev pub list_answer : Result StorageFault (List ObjectMetadata) → Answer
  list_answer (ok objects) = listed objects
  list_answer (err e) = internal_error (message library e)
  list_answer panic = panicked

  unfoldable pub list_bucket_objects :
      Text → (prefix : Option Text) → (max_keys : Option ℕ) → Store deps → Answer × Store deps
  list_bucket_objects bucket prefix max_keys s =
      let (found, db') = Index.list_objects index bucket prefix max_keys s.db in
      if role then (list_answer found, record s { db = db' }) else (service_unavailable, s)

  -- What follows the storing of an object. The sending reads the shards back.
  abbrev pub distribute :
      (bucket key : Text)
      → ObjectMetadata
      → Store deps
      → (peers : List Text) → Answer × Store deps × List (Text × TransferMessage)
  distribute bucket key m s [] = (object_created m, s, [])
  distribute bucket key m s (peer ∷ peers) =
      let (shards, s') = read_shards deps bucket key s in
      (object_created m, s', fan_out (peer ∷ peers) (transfers_of m shards))

  abbrev pub after_put :
      (self : NodeId)
      → Map NodeId NodeInfo
      → (bucket key : Text) → Result StorageFault ObjectMetadata × Store deps
      → Answer × Store deps × List (Text × TransferMessage)
  after_put self nodes bucket key (ok m, s) = distribute bucket key m s (storage_peers self nodes)
  after_put self nodes bucket key (err e, s) = (internal_error (message library e), s, [])
  after_put self nodes bucket key (panic, s) = (panicked, s, [])

  unfoldable pub put_object_handler :
      (clock : ℕ → Text) (self : NodeId)
      → Map NodeId NodeInfo
      → (bucket key : Text) (policy : Option Text) → Bytes
      → Store deps
      → Answer × Store deps × List (Text × TransferMessage)
  put_object_handler clock self nodes bucket key policy body s =
      if role
      then after_put self nodes bucket key (
          put_chunks deps clock bucket key body (policy_of policy)
            (record s { db = Index.create_bucket index bucket s.db }))
      else (service_unavailable, s, [])

  abbrev pub after_get :
      (bucket key : Text) → Result StorageFault Bytes × Store deps → Answer × Store deps
  after_get bucket key (ok bytes, s) =
      let (found, db') = Index.get_object index bucket key s.db in
      (content (etag_or_empty found) bytes, record s { db = db' })
  after_get bucket key (err e, s) = (failure (message library e), s)
  after_get bucket key (panic, s) = (panicked, s)

  unfoldable pub get_object_handler : (bucket key : Text) → Store deps → Answer × Store deps
  get_object_handler bucket key s =
      if role then after_get bucket key (get_chunks deps bucket key s) else (service_unavailable, s)

  abbrev pub delete_answer : Result StorageFault (Unit {0}) → Answer
  delete_answer (ok u) = no_content
  delete_answer (err e) = failure (message library e)
  delete_answer panic = panicked

  unfoldable pub delete_object_handler : (bucket key : Text) → Store deps → Answer × Store deps
  delete_object_handler bucket key s =
      let (done, s') = delete_object deps bucket key s in
      if role then (delete_answer done, s') else (service_unavailable, s)
