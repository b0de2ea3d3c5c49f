-- ===== src/Examples/ChunkExamples.antt =====
-- The properties of agent/src/storage/chunks.rs at small objects.
use all4one.Prelude.{
  ℕ, ◌<◌, ◌≡◌, ◌≢◌, refl, false, [], ◌∷◌, ◌++◌, Text, Bytes, codes, insert, get-insert, nat_beq,
  le_bytes, sym, ◌∙◌, replace_slash, nat_eq, list_eq, arith, ok, err,
}
use all4one.External.SledModel.{cell_db}
use all4one.Storage.Policy.{
  warm, policy_name, replicas, get_layout, zstd_level, put_layout, erasure_coding,
}
use all4one.Storage.Erasure.{encode_erasure, with_prefix}
use all4one.Storage.Metadata.{ObjectMetadata, data_corruption}
use all4one.Storage.Index
use all4one.Storage.Index.{new_metadata}
use all4one.Storage.Index.Objects.{get_object-put_object}
use all4one.Storage.Chunks.{
  Store, object_id, shard_path, read_file, compress, put_chunks, get_chunks,
}
use all4one.Storage.Chunks.Paths.{shard_path_eq}
use all4one.Storage.Chunks.RoundTrip.{get_chunks-put_chunks}
use all4one.Storage.Chunks.Parity.{get_chunks-parity}
use all4one.Storage.Chunks.Collisions.{colliding_key_corrupts}
use all4one.Examples.Stored.{chunk_deps}

abbrev letter_clock : ℕ → Text
letter_clock n = codes "t"

abbrev empty_store : Store chunk_deps
empty_store = record { files = []; db = cell_db.empty }

abbrev hello_meta : Text → ObjectMetadata
hello_meta key = new_metadata (codes "t") (codes "t") (codes "b") key (codes "hello") 5 warm

abbrev hello_json : Text → Bytes
hello_json key = b'b' ∷ (key ++ (b't' ∷ b't' ∷ 5 ∷ 1 ∷ 4 ∷ (codes "warm" ++ codes "hello")))

-- The store after an object was put under the key `/`.
abbrev hello_store : Store chunk_deps
hello_store =
    (put_chunks chunk_deps letter_clock (codes "b") (codes "/") (codes "hello") warm empty_store).1

get_chunks-put_chunks_example :
    let stored =
      put_chunks chunk_deps letter_clock (codes "b") (codes "/") (codes "hello") warm empty_store in
    (stored.0 ≡ ok (hello_meta (codes "/")))
    × ((get_chunks chunk_deps (codes "b") (codes "/") stored.1).0 ≡ ok (codes "hello"))
unfolding compress zstd_level policy_name replicas
get_chunks-put_chunks_example =
    get_chunks-put_chunks chunk_deps letter_clock (codes "b") (codes "/") (codes "hello")
      (codes "hello") (hello_json (codes "/")) warm empty_store refl (omega arith) refl

-- The database with the object's metadata.
abbrev hello_db : cell_db.Db
hello_db =
    (Index.put_object chunk_deps.index (codes "t") (codes "t") (codes "b") (codes "/")
      (codes "hello") 5 warm cell_db.empty).1

hello_found :
    (Index.get_object chunk_deps.index (codes "b") (codes "/") hello_db).0
    ≡ ok (hello_meta (codes "/"))
unfolding policy_name replicas
hello_found =
    (get_object-put_object chunk_deps.index (codes "t") (codes "t") (codes "b") (codes "/")
      (codes "hello") 5 warm (hello_json (codes "/")) (codes "b") (codes "/") cell_db.empty refl).1

-- Files that hold no shard.
abbrev no_files : Store chunk_deps
no_files = record { files = []; db = hello_db }

get_chunks-parity_example :
    (get_chunks chunk_deps (codes "b") (codes "/") (record no_files {
      files = insert (shard_path (codes "b") (codes "b--") 5) (codes "x") [];
    })).0
    ≡ (get_chunks chunk_deps (codes "b") (codes "/") no_files).0
unfolding object_id replace_slash get_layout policy_name
get_chunks-parity_example =
    get_chunks-parity chunk_deps (codes "b") (codes "/") (hello_meta (codes "/"))
      (insert (shard_path (codes "b") (codes "b--") 5) (codes "x") []) no_files hello_found same
  where
    same :
        (j : ℕ)
        → j < 4
        → read_file (shard_path (codes "b") (codes "b--") j) []
          ≡ read_file
              (shard_path (codes "b") (codes "b--") j)
              (insert (shard_path (codes "b") (codes "b--") 5) (codes "x") [])
    same j below =
        let apart : nat_beq 5 j ≡ false = ground arith in
        sym (
          get-insert (shard_path (codes "b") (codes "b--") 5)
            (shard_path (codes "b") (codes "b--") j) (codes "x") []
          ∙ rw (shard_path_eq (codes "b") (codes "b--") 5 j (omega arith) (omega arith), apart)
              refl)

colliding_key_corrupts_example :
    (get_chunks chunk_deps
      (codes "b")
      (codes "/")
      (put_chunks chunk_deps letter_clock
        (codes "b")
        (codes "-")
        (codes "other")
        warm
        no_files).1).0
    ≡ err (data_corruption (codes "hello") (codes "other"))
unfolding compress zstd_level policy_name replicas object_id replace_slash
colliding_key_corrupts_example =
    colliding_key_corrupts chunk_deps letter_clock (codes "b") (codes "/") (codes "-")
      (hello_meta (codes "/")) (codes "other") (codes "other")
      (b'b' ∷ (codes "-" ++ (b't' ∷ b't' ∷ 5 ∷ 1 ∷ 4 ∷ (codes "warm" ++ codes "other")))) warm
      no_files hello_found refl refl keys_differ digests_differ refl (omega arith) refl
  where
    keys_differ : codes "-" ≢ codes "/"
    keys_differ e = absurd (ground (arith, e))

    digests_differ : codes "other" ≢ codes "hello"
    digests_differ e = absurd (ground (arith, e))

stored_found :
    (Index.get_object chunk_deps.index (codes "b") (codes "/") hello_store.db).0
    ≡ ok (hello_meta (codes "/"))
unfolding put_chunks compress zstd_level put_layout erasure_coding encode_erasure with_prefix
    le_bytes
stored_found = hello_found
