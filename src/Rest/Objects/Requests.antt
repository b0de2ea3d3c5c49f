-- ===== src/Rest/Objects/Requests.antt =====
-- agent/src/api_rest/mod.rs: an object that is uploaded, downloaded and deleted.
use all4one.Prelude.{
  ℕ, ◌≡◌, ◌∙◌, sym, refl, true, Option, some, List, [], ◌∷◌, ◌++◌, Text, Bytes, Map, codes, length,
  starts_with, strip_prefix, Result, ok, err, panic, beq_refl, nat_eq, list_eq, arith,
}
use all4one.Common.{NodeId, NodeInfo}
use all4one.Storage.Policy.{zstd_level}
use all4one.Storage.Erasure.RoundTrip.{Fits}
use all4one.Storage.Metadata.{ObjectMetadata, StorageFault, object_not_found}
use all4one.Storage.Index
use all4one.Storage.Index.{new_metadata, bucket_tree, read_found}
use all4one.Storage.Index.Objects.{get_object_lem, get_object-delete_object}
use all4one.Storage.Chunks.{
  ChunkDeps, Store, compress, put_chunks, get_chunks, delete_object, read_shards,
}
use all4one.Storage.Chunks.RoundTrip.{get_chunks-put_chunks, described-put_chunks}
use all4one.Grpc.Chunks.{storage_peers}
use all4one.Rest.Objects.{
  message, contains, content, no_content, not_found, object_created, policy_of, failure, distribute,
  after_put, after_get, put_object_handler, get_object_handler, delete_object_handler,
}

module _ (deps : ChunkDeps) (library : StorageFault → Text) where
  open deps use {index, codec}
  open index use {meta_json, sled}

  after_get_err :
      (bucket key : Text) (e : StorageFault) (got : Result StorageFault Bytes × Store deps)
      → got.0 ≡ err e
      → (after_get deps library true bucket key got).0 ≡ failure (message library e)
  after_get_err bucket key e (ok b, s) h = absurd (ground (arith, h))
  after_get_err bucket key e (err x, s) h = ground (arith, h)
  after_get_err bucket key e (panic, s) h = absurd (ground (arith, h))

  after_get_ok :
      (bucket key : Text) (bytes : Bytes) (m : ObjectMetadata)
      (got : Result StorageFault Bytes × Store deps)
      → got.0 ≡ ok bytes
      → (Index.get_object index bucket key got.1.db).0 ≡ ok m
      → (after_get deps library true bucket key got).0 ≡ content m.etag bytes
  after_get_ok bucket key bytes m (ok b, s) h found =
      let same : b ≡ bytes = cc in rw (found, same) refl
  after_get_ok bucket key bytes m (err x, s) h found = absurd (ground (arith, h))
  after_get_ok bucket key bytes m (panic, s) h found = absurd (ground (arith, h))

  -- A lookup changes no later one.
  get_object_again :
      (bucket key : Text) (d : sled.Db)
      → (Index.get_object index bucket key (Index.get_object index bucket key d).1).0
        ≡ (Index.get_object index bucket key d).0
  unfolding Index.get_object
  get_object_again bucket key d =
      let t = bucket_tree bucket in
      get_object_lem index bucket key (Index.get_object index bucket key d).1
      ∙ opened t key d
      ∙ sym (get_object_lem index bucket key d)
    where
      opened :
          (t : Text) (k : Bytes) (d : sled.Db)
          → read_found index bucket key (sled.tree_get t k (sled.open_tree t d))
            ≡ read_found index bucket key (sled.tree_get t k d)
      opened t k d = rw (sled.get-open_tree t t k d) refl

  -- A deleted object is gone: the deletion is answered without content, also where there was no such
  -- object, and a request of the object then is answered as not found.
  pub get-delete_object_handler :
      (bucket key : Text) (s : Store deps)
      → let after = delete_object_handler deps library true bucket key s in
        (after.0 ≡ no_content)
        × ((get_object_handler deps library true bucket key after.1).0
            ≡ not_found (codes "Object not found: " ++ (bucket ++ (b'/' ∷ key))))
  unfolding delete_object_handler get_object_handler delete_object get_chunks contains starts_with
      strip_prefix
  get-delete_object_handler bucket key s =
      let d = (Index.delete_object index bucket key s.db).1 in
      let (done, gone) = get_object-delete_object index bucket key bucket key s.db in
      let absent : (Index.get_object index bucket key d).0 ≡ err (object_not_found bucket key) =
        gone ∙ rw (beq_refl bucket, beq_refl key) refl in
      (
        rw done refl,
        after_get_err bucket key (object_not_found bucket key)
            (get_chunks deps bucket key (record s { db = d })) (rw (get_chunks, absent) refl),
      )

  get_chunks_again :
      (bucket key : Text) (s : Store deps)
      → (get_chunks deps bucket key (read_shards deps bucket key s).1).0
        ≡ (get_chunks deps bucket key s).0
  unfolding get_chunks read_shards
  get_chunks_again bucket key s = rw (get_object_again bucket key s.db) refl

  get_handler_lem :
      (bucket key : Text) (bytes : Bytes) (m : ObjectMetadata) (s : Store deps)
      → (Index.get_object index bucket key s.db).0 ≡ ok m
      → (get_chunks deps bucket key s).0 ≡ ok bytes
      → (get_object_handler deps library true bucket key s).0 ≡ content m.etag bytes
  unfolding get_object_handler get_chunks
  get_handler_lem bucket key bytes m s found got =
      after_get_ok bucket key bytes m (get_chunks deps bucket key s) got
        (get_object_again bucket key s.db ∙ found)

  -- The store that a request leaves, with the shards read back for the peers or not, serves alike.
  distribute_serves :
      (bucket key : Text) (bytes : Bytes) (m stored : ObjectMetadata) (s : Store deps)
      (peers : List Text)
      → (Index.get_object index bucket key s.db).0 ≡ ok stored
      → (get_chunks deps bucket key s).0 ≡ ok bytes
      → let after = distribute deps library true bucket key m s peers in
        (after.0 ≡ object_created m)
        × ((get_object_handler deps library true bucket key after.1).0 ≡ content stored.etag bytes)
  unfolding read_shards
  distribute_serves bucket key bytes m stored s [] found got =
      (refl, get_handler_lem bucket key bytes stored s found got)
  distribute_serves bucket key bytes m stored s (peer ∷ peers) found got = (
    refl,
    get_handler_lem bucket key bytes stored (read_shards deps bucket key s).1
        (get_object_again bucket key s.db ∙ found) (get_chunks_again bucket key s ∙ got),
  )

  after_put_serves :
      (self : NodeId) (nodes : Map NodeId NodeInfo) (bucket key : Text) (bytes : Bytes)
      (m stored : ObjectMetadata) (put : Result StorageFault ObjectMetadata × Store deps)
      → put.0 ≡ ok m
      → (Index.get_object index bucket key put.1.db).0 ≡ ok stored
      → (get_chunks deps bucket key put.1).0 ≡ ok bytes
      → let after = after_put deps library true self nodes bucket key put in
        (after.0 ≡ object_created m)
        × ((get_object_handler deps library true bucket key after.1).0 ≡ content stored.etag bytes)
  after_put_serves self nodes bucket key bytes m stored (ok m', s) h found got =
      let same : m' ≡ m = cc in
      rw same (distribute_serves bucket key bytes m stored s (storage_peers self nodes) found got)
  after_put_serves self nodes bucket key bytes m stored (err x, s) h found got =
      absurd (ground (arith, h))
  after_put_serves self nodes bucket key bytes m stored (panic, s) h found got =
      absurd (ground (arith, h))

  -- An uploaded object is downloaded as it was: if it can be compressed, prefixed and described, the
  -- upload is answered with its metadata, and a download then with its bytes and their digest, for every
  -- policy that the header names, and whether or not there are peers to send it to.
  pub get-put_object_handler :
      (clock : ℕ → Text) (self : NodeId) (nodes : Map NodeId NodeInfo) (bucket key : Text)
      (policy : Option Text) (bytes packed json : Bytes) (s : Store deps)
      → compress deps bytes (zstd_level (policy_of policy)) ≡ ok packed
      → Fits packed
      → meta_json.to_vec (
          new_metadata
            (clock 0)
            (clock 1)
            bucket
            key
            (codec.digest bytes)
            (length bytes)
            (policy_of policy))
        ≡ some json
      → let after =
          put_object_handler deps library true clock self nodes bucket key policy bytes s in
        (after.0
          ≡ object_created (
              new_metadata
                (clock 2)
                (clock 3)
                bucket
                key
                (codec.digest bytes)
                (length bytes)
                (policy_of policy)))
        × ((get_object_handler deps library true bucket key after.1).0
            ≡ content (codec.digest bytes) bytes)
  unfolding put_object_handler
  get-put_object_handler clock self nodes bucket key policy bytes packed json s hc fits hj =
      let p = policy_of policy in
      let s' : Store deps = record s { db = Index.create_bucket index bucket s.db } in
      let (made, got) =
        get_chunks-put_chunks deps clock bucket key bytes packed json p s' hc fits hj in
      after_put_serves self nodes bucket key bytes _ _ (put_chunks deps clock bucket key bytes p s')
        made (described-put_chunks deps clock bucket key bytes packed json p s' hc fits hj) got
