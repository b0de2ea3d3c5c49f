-- ===== src/Storage/Chunks/Collisions.antt =====
-- Two keys of one bucket whose ids are equal, such as `a/b` and `a-b`, in agent/src/storage/chunks.rs.
use all4one.Prelude.{
  ℕ, ◌≡◌, ◌≢◌, refl, ◌∙◌, false, some, Text, Bytes, length, ok, err, nat_eq, list_eq, list_beq,
  list_beq_iff, beq_refl, arith,
}
use all4one.Storage.Policy.{StoragePolicy, zstd_level, policy_name}
use all4one.Storage.Erasure.RoundTrip.{Fits}
use all4one.Storage.Metadata.{ObjectMetadata, data_corruption}
use all4one.Storage.Index
use all4one.Storage.Index.{new_metadata}
use all4one.Storage.Index.Objects.{get_object-put_object}
use all4one.Storage.Chunks.{ChunkDeps, Store, compress, object_id, put_chunks, get_chunks}
use all4one.Storage.Chunks.RoundTrip.{
  put_chunks_lem, get_chunks_lem, decode_object-encoded, load_object-written,
}

list_ne : (a b : Text) → a ≢ b → list_beq a b ≡ false
list_ne a b h = ground (arith, list_beq_iff a b)

module _ (deps : ChunkDeps) where
  open deps use {index, codec}
  open index use {meta_json}

  -- Where the metadata of an object of a bucket are found, and then an object of another key with
  -- the same id, the same policy and another digest is put, whose bytes can be compressed, prefixed
  -- and described, reading the first reports that its data are corrupt: its shards are the second
  -- object's.
  pub colliding_key_corrupts :
      (clock : ℕ → Text) (bucket key key' : Text) (m : ObjectMetadata) (bytes packed json : Bytes)
      (p : StoragePolicy) (s : Store deps)
      → (Index.get_object index bucket key s.db).0 ≡ ok m
      → m.policy ≡ policy_name p
      → object_id bucket key ≡ object_id bucket key'
      → key' ≢ key
      → codec.digest bytes ≢ m.etag
      → compress deps bytes (zstd_level p) ≡ ok packed
      → Fits packed
      → meta_json.to_vec
          (new_metadata (clock 0) (clock 1) bucket key' (codec.digest bytes) (length bytes) p)
        ≡ some json
      → (get_chunks deps bucket key (put_chunks deps clock bucket key' bytes p s).1).0
        ≡ err (data_corruption m.etag (codec.digest bytes))
  colliding_key_corrupts clock bucket key key' m bytes packed json p s found named same other
        differs hc fits hj =
      let (shards, made, count, decoded) =
        decode_object-encoded deps bytes packed m.etag p hc fits in
      let (done, kept) =
        get_object-put_object index (clock 0) (clock 1) bucket key' (codec.digest bytes)
          (length bytes) p json bucket key s.db hj in
      let still : (Index.get_object index bucket key
            (Index.put_object index (clock 0) (clock 1) bucket key' (codec.digest bytes)
              (length bytes) p s.db).1).0
          ≡ ok m =
        kept ∙ rw (beq_refl bucket, list_ne key' key other) found in
      rw (put_chunks_lem deps clock bucket key' bytes json p shards s made hj) (
        get_chunks_lem deps bucket key m _ still
        ∙ load_object-written deps bucket key key' (length bytes) m p shards s.files named same
            count
        ∙ decoded
        ∙ rw (list_ne (codec.digest bytes) m.etag differs) refl)
