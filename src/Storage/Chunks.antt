-- ===== src/Storage/Chunks.antt =====
-- agent/src/storage/chunks.rs, and the functions of agent/src/storage/mod.rs that go through it. The
-- file system is a map from paths to contents, which a write extends; input and output errors are
-- left out. `data_dir` is fixed: a path here is what follows it. An operation returns its result and
-- the store.
pub mod Paths
pub mod Writing
pub mod RoundTrip
pub mod Faults
pub mod Parity
pub mod Collisions
use all4one.Prelude.{
  ℕ, zero, suc, ◌+◌, ◌-◌, Bool, true, false, not, Option, none, some, List, [], ◌∷◌, ◌++◌, Text,
  Bytes, codes, Map, get, insert, length, ltb, replace_slash, decimal, Result, ok, err, panic,
  ◌>>=◌, nat_eq, list_eq, ◌==◌, if◌then◌else◌,
}
use all4one.External.Sled.{Sled}
use all4one.External.Serde.{Serde}
use all4one.External.Codec.{Codec}
use all4one.Storage.Policy.{
  StoragePolicy, policy_name, replicas, zstd_level, put_layout, get_layout, shard_count,
}
use all4one.Storage.Erasure.{ErasureError, encode_erasure, decode_erasure}
use all4one.Storage.Metadata.{
  ObjectMetadata, StorageFault, compression_failed, decompression_failed, insufficient_shards,
  erasure_fault, data_corruption,
}
use all4one.Storage.Index
use all4one.Storage.Index.{IndexDeps}

abbrev pub Files : Type 0
Files = Map Text Bytes

-- `a.join(b)`, for a relative `b`.
abbrev pub join_path : Text → Text → Text
join_path a b = a ++ (b'/' ∷ b)

unfoldable pub chunks_dir : Text → Text
chunks_dir bucket = join_path (codes "chunks") bucket

-- `format!("{}-{}", bucket, key).replace("/", "-")` of `put_chunks` and `get_chunks`.
unfoldable pub object_id : Text → Text → Text
object_id bucket key = replace_slash (bucket ++ (b'-' ∷ key))

-- The object id of `read_shards`, `transfer_chunk` and `fetch_chunk`, which replace in the key only.
unfoldable pub shard_object_id : Text → Text → Text
shard_object_id bucket key = bucket ++ (b'-' ∷ replace_slash key)

-- The path of the i-th shard, and of its metadata.
unfoldable pub shard_path : Text → Text → ℕ → Text
shard_path bucket id i = join_path (chunks_dir bucket) (id ++ (codes "-shard-" ++ decimal i))

unfoldable pub meta_path : Text → Text → ℕ → Text
meta_path bucket id i = shard_path bucket id i ++ codes ".meta"

unfoldable pub shard_meta : ℕ → Text → ℕ → Text
shard_meta i hash size =
    codes "shard="
    ++ (decimal i ++ (codes ",hash=" ++ (hash ++ (codes ",original_size=" ++ decimal size))))

-- `fs::read`, where `None` stands for a path that does not exist.
abbrev pub read_file : Text → Files → Option Bytes
read_file path files = get path files

-- The errors of `encode_erasure` and `decode_erasure`, passed on by `?`.
abbrev pub erasure {ℓ} : {A : Type ℓ} → Result ErasureError A → Result StorageFault A
erasure (ok a) = ok a
erasure (err e) = err (erasure_fault e)
erasure panic = panic

-- The loop of `get_chunks` over the indices from `i` on: a missing data shard is an error, a missing
-- parity shard is skipped.
unfoldable pub load_shards :
    Text → Text → (data_shards i left : ℕ) → Files → Result StorageFault (List Bytes)
load_shards bucket id data_shards i zero files = ok []
load_shards bucket id data_shards i (suc left) files =
    let rest = load_shards bucket id data_shards (suc i) left files in
    elim (read_file (shard_path bucket id i) files) [
      | some shard ↦ rest >>= λ shards. ok (shard ∷ shards)
      | none ↦ if ltb i data_shards then err insufficient_shards else rest
    ]

-- What storing and loading use of sled, of serde_json, of sha2 and of zstd.
pub record ChunkDeps : Type 1 where
  pub index : IndexDeps
  pub codec : Codec

module _ (deps : ChunkDeps) where
  open deps use {index, codec}
  open codec use {digest, zstd_encode, zstd_decode}

  pub record Store : Type 0 where
    pub files : Files
    pub db : index.sled.Db

  -- `compress` and `decompress`.
  unfoldable pub compress : Bytes → ℕ → Result StorageFault Bytes
  compress bytes level =
      if level == 0
      then ok bytes
      else elim (zstd_encode level bytes) [ none ↦ err compression_failed | some c ↦ ok c ]

  unfoldable pub decompress : Bytes → Result StorageFault Bytes
  decompress bytes = elim (zstd_decode bytes) [ none ↦ err decompression_failed | some b ↦ ok b ]

  -- The loop of `put_chunks` over the shards from the i-th on: each shard, and its metadata.
  unfoldable pub write_shards : Text → Text → ℕ → ℕ → List Bytes → Files → Files
  write_shards bucket id size i [] files = files
  write_shards bucket id size i (shard ∷ shards) files =
      write_shards bucket id size (suc i) shards (
        insert (meta_path bucket id i) (shard_meta i (digest shard) size)
          (insert (shard_path bucket id i) shard files))

  abbrev pub encoded_shards : Bytes → StoragePolicy → Result StorageFault (List Bytes)
  encoded_shards bytes p = compress bytes (zstd_level p) >>= λ compressed.
      erasure (encode_erasure compressed (put_layout p).0 (put_layout p).1)

  abbrev finish_put :
      Result StorageFault (Unit {0}) → ObjectMetadata → Result StorageFault ObjectMetadata
  finish_put (ok u) m = ok m
  finish_put (err e) m = err e
  finish_put panic m = panic

  -- `put_chunks`; `clock` gives the four readings of the clock.
  unfoldable pub put_chunks :
      (clock : ℕ → Text) (bucket key : Text)
      → Bytes
      → StoragePolicy
      → Store
      → Result StorageFault ObjectMetadata × Store
  put_chunks clock bucket key bytes p s = elim (encoded_shards bytes p) [
    | err e ↦ (err e, s)
    | panic ↦ (panic, s)
    | ok shards ↦
        let etag = digest bytes in
        let files' = write_shards bucket (object_id bucket key) (length bytes) 0 shards s.files in
        let (done, db') =
          Index.put_object index (clock 0) (clock 1) bucket key etag (length bytes) p s.db in
        (
          finish_put done (Index.new_metadata (clock 2) (clock 3) bucket key etag (length bytes) p),
          record { files = files'; db = db' },
        )
  ]

  -- The end of `get_chunks`, on the shards that were loaded.
  unfoldable pub decode_object : ℕ × ℕ × ℕ → Text → List Bytes → Result StorageFault Bytes
  decode_object (data_shards, parity_shards, level) etag shards =
      erasure (decode_erasure shards data_shards parity_shards) >>= λ compressed.
      (if ltb 0 level then decompress compressed else ok compressed) >>= λ bytes.
      if digest bytes == etag then ok bytes else err (data_corruption etag (digest bytes))

  abbrev pub load_object : ObjectMetadata → Text → Text → Files → Result StorageFault Bytes
  load_object m bucket key files =
      let layout = get_layout m.policy in
      load_shards bucket (object_id bucket key) layout.0 0 (layout.0 + layout.1) files >>= λ shards.
      decode_object layout m.etag shards

  unfoldable pub get_chunks : Text → Text → Store → Result StorageFault Bytes × Store
  get_chunks bucket key s =
      let (found, db') = Index.get_object index bucket key s.db in
      (found >>= (λ m. load_object m bucket key s.files), record s { db = db' })

  -- `storage::delete_object`, which deletes the metadata.
  unfoldable pub delete_object : Text → Text → Store → Result StorageFault (Unit {0}) × Store
  delete_object bucket key s =
      let (done, db') = Index.delete_object index bucket key s.db in (done, record s { db = db' })

  -- The loop of `read_shards`: the index, the hash and the bytes of each shard that is there.
  unfoldable pub collect_shards : Text → Text → (i left : ℕ) → Files → List (ℕ × Text × Bytes)
  collect_shards bucket id i zero files = []
  collect_shards bucket id i (suc left) files =
      let rest = collect_shards bucket id (suc i) left files in
      elim (read_file (shard_path bucket id i) files) [
        | some shard ↦ (i, digest shard, shard) ∷ rest
        | none ↦ rest
      ]

  unfoldable pub read_shards :
      Text → Text → Store → Result StorageFault (List (ℕ × Text × Bytes)) × Store
  read_shards bucket key s =
      let (found, db') = Index.get_object index bucket key s.db in
      (
        found >>= (λ m.
            ok (
              collect_shards bucket (shard_object_id bucket key) 0 (shard_count m.policy) s.files)),
        record s { db = db' },
      )
