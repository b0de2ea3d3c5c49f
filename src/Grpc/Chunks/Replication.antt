-- ===== src/Grpc/Chunks/Replication.antt =====
-- An object stored on one node (agent/src/storage/chunks.rs), sent to a peer (agent/src/api_rest/mod.rs,
-- agent/src/grpc_server/mod.rs) and read there.
use all4one.Prelude.{
  ℕ, suc, ◌+◌, ◌<◌, ◌≡◌, refl, sym, ap, ◌∙◌, err, true, some, List, [], ◌∷◌, ◌++◌, map, Text, Bytes,
  length, replace_slash, beq_refl, ok, nat_eq, list_eq, ◌==◌, if◌then◌else◌, arith,
}
use all4one.Storage.Policy.{
  StoragePolicy, policy_name, put_layout, get_layout, shard_count, zstd_level, parse_policy,
}
use all4one.Storage.Policy.Names.{policy_name_readers}
use all4one.Storage.Erasure.RoundTrip.{Fits}
use all4one.Storage.Metadata.{ObjectMetadata, data_corruption}
use all4one.Storage.Index
use all4one.Storage.Index.{new_metadata}
use all4one.Storage.Index.Objects.{get_object-put_object}
use all4one.Storage.Chunks.{
  ChunkDeps, Store, compress, object_id, shard_object_id, write_shards, put_chunks, get_chunks,
  load_object, collect_shards, read_shards, decode_object,
}
use all4one.Storage.Chunks.RoundTrip.{
  put_chunks_lem, get_chunks_lem, decode_object-encoded, load_object-written, layout_room,
  layout_pos,
}
use all4one.Grpc.Chunks.{
  TransferMessage, transfer_message, transfers_of, transfer_chunk, receive_all,
}
use all4one.Grpc.Chunks.Collecting.{numbered, collect-write_shards}

replace_slash-append : (a b : Text) → replace_slash (a ++ b) ≡ replace_slash a ++ replace_slash b
unfolding replace_slash
replace_slash-append [] b = refl
replace_slash-append (c ∷ a) b =
    ap (λ t. (if c == b'/' then b'-' else c) ∷ t) (replace_slash-append a b)

-- The names that the two sides give to an object are the same if its bucket has no slash.
pub shard_object_id_lem :
    (bucket key : Text)
    → replace_slash bucket ≡ bucket
    → object_id bucket key ≡ shard_object_id bucket key
unfolding object_id shard_object_id replace_slash
shard_object_id_lem bucket key plain =
    replace_slash-append bucket (b'-' ∷ key) ∙ ap (λ t. t ++ (b'-' ∷ replace_slash key)) plain

module _ (deps : ChunkDeps) (clocks : ℕ → ℕ → Text) (m : ObjectMetadata) where
  open deps use {index, codec}
  open index use {meta_json}

  abbrev id : Text
  id = shard_object_id m.bucket m.key

  -- The messages for the shards.
  abbrev pub sent : List Bytes → List TransferMessage
  sent shards = map (transfer_message m) (numbered deps m.bucket id m.size_bytes 0 shards)

  -- The peer's files are as if it had stored the shards itself.
  files-receive_all :
      (shards : List Bytes) (n i : ℕ) (s : Store deps)
      → (receive_all deps clocks n
          (map (transfer_message m) (numbered deps m.bucket id m.size_bytes i shards))
          s).files
        ≡ write_shards deps m.bucket id m.size_bytes i shards s.files
  unfolding receive_all transfer_chunk write_shards
  files-receive_all [] n i s = refl
  files-receive_all (shard ∷ shards) n i s = files-receive_all shards (n + 1) (suc i) _

  -- The metadata that the peer finds, with times of its own.
  abbrev Described : StoragePolicy → Store deps → Type 0
  Described p s =
      (created modified : Text) × ((Index.get_object index m.bucket m.key s.db).0
        ≡ ok (new_metadata created modified m.bucket m.key m.etag m.size_bytes p))

  module _ (p : StoragePolicy) (jsons : ℕ → Bytes) (named : m.policy ≡ policy_name p)
      (writable : (n : ℕ)
        → meta_json.to_vec
            (new_metadata (clocks n 0) (clocks n 1) m.bucket m.key m.etag m.size_bytes p)
          ≡ some (jsons n)) where
    transfer_describes :
        (n : ℕ) (shard : ℕ × Text × Bytes) (s : Store deps)
        → Described p (transfer_chunk deps true (clocks n) (transfer_message m shard) s).1
    unfolding transfer_chunk
    transfer_describes n (i, hash, shard) s =
        let d = Index.create_bucket index m.bucket s.db in
        let parsed : parse_policy m.policy ≡ p =
          ap parse_policy named ∙ (policy_name_readers p).3 in
        let (done, found) =
          get_object-put_object index (clocks n 0) (clocks n 1) m.bucket m.key m.etag m.size_bytes p
            (jsons n) m.bucket m.key d (writable n) in
        (clocks n 0, clocks n 1, rw parsed (found ∙ rw (beq_refl m.bucket, beq_refl m.key) refl))

    receive_describes :
        (messages : List (ℕ × Text × Bytes)) (n : ℕ) (s : Store deps)
        → Described p s
        → Described p (receive_all deps clocks n (map (transfer_message m) messages) s)
    unfolding receive_all
    receive_describes [] n s d = d
    receive_describes (x ∷ messages) n s d =
        receive_describes messages (n + 1) _ (transfer_describes n x s)

    first_describes :
        (shards : List Bytes) (s : Store deps)
        → 0 < length shards
        → Described p (receive_all deps clocks 0 (sent shards) s)
    unfolding receive_all
    first_describes [] s h = absurd (omega arith)
    first_describes (x ∷ xs) s h =
        receive_describes (numbered deps m.bucket id m.size_bytes 1 xs) 1 _
          (transfer_describes 0 (0, codec.digest x, x) s)

    -- What the metadata and the files of the peer give.
    load_received :
        (created modified : Text) (bytes : Bytes) (shards : List Bytes) (s : Store deps)
        → replace_slash m.bucket ≡ m.bucket
        → m.etag ≡ codec.digest bytes
        → length shards ≡ (put_layout p).0 + (put_layout p).1
        → decode_object deps (get_layout (policy_name p)) m.etag shards ≡ (
            if codec.digest bytes == m.etag
            then ok bytes
            else err (data_corruption m.etag (codec.digest bytes)))
        → load_object deps
            (new_metadata created modified m.bucket m.key m.etag m.size_bytes p)
            m.bucket
            m.key
            (receive_all deps clocks 0 (sent shards) s).files
          ≡ ok bytes
    load_received created modified bytes shards s plain tagged count decoded =
        let meta = new_metadata created modified m.bucket m.key m.etag m.size_bytes p in
        let files =
          files-receive_all shards 0 0 s
          ∙ ap (λ (name : Text). write_shards deps m.bucket name m.size_bytes 0 shards s.files)
              (sym (shard_object_id_lem m.bucket m.key plain)) in
        ap (λ fs. load_object deps meta m.bucket m.key fs) files
        ∙ load_object-written deps m.bucket m.key m.key m.size_bytes meta p shards s.files refl refl
            count
        ∙ decoded
        ∙ rw (tagged, beq_refl (codec.digest bytes)) refl

    -- What a peer reads after the shards of some bytes came.
    pub get_chunks-receive_all :
        (bytes : Bytes) (shards : List Bytes) (s : Store deps)
        → replace_slash m.bucket ≡ m.bucket
        → m.etag ≡ codec.digest bytes
        → length shards ≡ (put_layout p).0 + (put_layout p).1
        → decode_object deps (get_layout (policy_name p)) m.etag shards ≡ (
            if codec.digest bytes == m.etag
            then ok bytes
            else err (data_corruption m.etag (codec.digest bytes)))
        → (get_chunks deps m.bucket m.key (receive_all deps clocks 0 (sent shards) s)).0 ≡ ok bytes
    get_chunks-receive_all bytes shards s plain tagged count decoded =
        let (created, modified, found) =
          first_describes shards s (omega (arith, count, layout_pos p)) in
        get_chunks_lem deps m.bucket m.key _ _ found
        ∙ load_received created modified bytes shards s plain tagged count decoded

-- An object that a node stored is served by a peer that is sent its shards: if the object was stored,
-- its bucket has no slash, and the peer can write its metadata, then after the node read the shards
-- back and the peer took them all, a read of the object on the peer gives its bytes, whatever the peer
-- held before, under any policy.
pub get_chunks-transfers_of :
    (deps : ChunkDeps) (clock : ℕ → Text) (clocks : ℕ → ℕ → Text) (bucket key : Text)
    (bytes packed json : Bytes) (jsons : ℕ → Bytes) (p : StoragePolicy) (node peer : Store deps)
    → replace_slash bucket ≡ bucket
    → compress deps bytes (zstd_level p) ≡ ok packed
    → Fits packed
    → deps.index.meta_json.to_vec
        (new_metadata (clock 0) (clock 1) bucket key (deps.codec.digest bytes) (length bytes) p)
      ≡ some json
    → ((n : ℕ)
        → deps.index.meta_json.to_vec (
            new_metadata
              (clocks n 0)
              (clocks n 1)
              bucket
              key
              (deps.codec.digest bytes)
              (length bytes)
              p)
          ≡ some (jsons n))
    → let m =
        new_metadata (clock 2) (clock 3) bucket key (deps.codec.digest bytes) (length bytes) p in
      let stored = put_chunks deps clock bucket key bytes p node in
      let sent = transfers_of m (read_shards deps bucket key stored.1).0 in
      (stored.0 ≡ ok m)
      × ((get_chunks deps bucket key (receive_all deps clocks 0 sent peer)).0 ≡ ok bytes)
unfolding read_shards transfers_of
get_chunks-transfers_of deps clock clocks bucket key bytes packed json jsons p node peer plain hc
      fits hj writable =
    let tag = deps.codec.digest bytes in
    let (shards, made, count, decoded) = decode_object-encoded deps bytes packed tag p hc fits in
    let m = new_metadata (clock 2) (clock 3) bucket key tag (length bytes) p in
    let db =
      (Index.put_object deps.index (clock 0) (clock 1) bucket key tag (length bytes) p node.db).1 in
    let (done, found) =
      get_object-put_object deps.index (clock 0) (clock 1) bucket key tag (length bytes) p json
        bucket key node.db hj in
    let there : (Index.get_object deps.index bucket key db).0
        ≡ ok (new_metadata (clock 0) (clock 1) bucket key tag (length bytes) p) =
      found ∙ rw (beq_refl bucket, beq_refl key) refl in
    let same = shard_object_id_lem bucket key plain in
    let count' : length shards ≡ shard_count (policy_name p) =
      count ∙ sym ((policy_name_readers p).2) in
    let read : collect_shards deps bucket (shard_object_id bucket key) 0
          (shard_count (policy_name p))
          (write_shards deps bucket (object_id bucket key) (length bytes) 0 shards node.files)
        ≡ numbered deps bucket (shard_object_id bucket key) (length bytes) 0 shards =
      rw (same, ← count')
        (collect-write_shards deps bucket (shard_object_id bucket key) (length bytes) shards 0
          node.files (omega (arith, count, layout_room p))) in
    rw (put_chunks_lem deps clock bucket key bytes json p shards node made hj) (
      refl,
      rw there (
          rw read (
            get_chunks-receive_all deps clocks m p jsons refl writable bytes shards peer plain refl
              count decoded)),
    )
