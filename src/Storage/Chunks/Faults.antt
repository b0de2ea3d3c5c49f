-- ===== src/Storage/Chunks/Faults.antt =====
-- `get_chunks` (agent/src/storage/chunks.rs) where shards are missing, damaged or overwritten.
use all4one.Prelude.{
  ℕ, zero, suc, ◌+◌, ◌≤◌, ◌<◌, ◌≡◌, refl, sym, ap, ◌∙◌, true, none, some, List, Text, Bytes, ltb,
  Option-cases, inl, inr, Bool-cases, Result, ok, err, panic, ◌>>=◌, nat_eq, list_eq, ◌==◌,
  list_beq_iff, arith, if◌then◌else◌,
}
use all4one.Storage.Policy.{get_layout}
use all4one.Storage.Erasure.{decode_erasure}
use all4one.Storage.Metadata.{ObjectMetadata, StorageFault, data_corruption, insufficient_shards}
use all4one.Storage.Index
use all4one.Storage.Chunks.{
  Files, ChunkDeps, Store, shard_path, read_file, load_shards, object_id, decode_object, get_chunks,
  erasure, decompress,
}
use all4one.Storage.Chunks.RoundTrip.{get_chunks_lem}

-- Reading stops with an error where one of the data shards is missing.
load_shards-missing :
    (bucket id : Text) (d i left j : ℕ) (files : Files)
    → i ≤ j
    → j < i + left
    → j < d
    → read_file (shard_path bucket id j) files ≡ none
    → load_shards bucket id d i left files ≡ err insufficient_shards
unfolding load_shards
load_shards-missing bucket id d i zero j files lo hi is_data gone = absurd (omega arith)
load_shards-missing bucket id d i (suc left) j files lo hi is_data gone =
    let rest_fails : i < j → load_shards bucket id d (suc i) left files ≡ err insufficient_shards =
      λ later.
        load_shards-missing bucket id d (suc i) left j files (omega arith) (omega arith) is_data
          gone in
    let path = shard_path bucket id i in
    elim (Option-cases (read_file path files)) [
      | inl none_here ↦
          let below : ltb i d ≡ true = ground arith in rw (load_shards, none_here, below) refl
      | inr (shard, here) ↦ elim (Bool-cases (ltb i j)) [
        | inl later ↦ rw (load_shards, here, rest_fails (ground arith)) refl
        | inr last ↦
            let same : i ≡ j = ground arith in
            let clash : some shard ≡ none =
              sym here ∙ ap (λ n. read_file (shard_path bucket id n) files) same ∙ gone in
            absurd cc
      ]
    ]

-- The last step of `decode_object`.
verified :
    (digest : Bytes → Text) (etag : Text) (r : Result StorageFault Bytes) (bytes : Bytes)
    → (r >>= λ b. if digest b == etag then ok b else err (data_corruption etag (digest b)))
      ≡ ok bytes
    → digest bytes ≡ etag
verified digest etag (ok b) bytes h = ground (arith, list_beq_iff (digest b) etag)
verified digest etag (err e) bytes h = cc
verified digest etag panic bytes h = cc

after_ok :
    {A B : Type 0} (r : Result StorageFault A) (f : A → Result StorageFault B) (b : B)
    → (r >>= f) ≡ ok b
    → (a : A) × (f a ≡ ok b)
after_ok (ok a) f b h = (a, h)
after_ok (err e) f b h = absurd cc
after_ok panic f b h = absurd cc

module _ (deps : ChunkDeps) where
  open deps use {index, codec}

  decode_object_digest :
      (l : ℕ × ℕ × ℕ) (etag : Text) (shards : List Bytes) (bytes : Bytes)
      → decode_object deps l etag shards ≡ ok bytes
      → codec.digest bytes ≡ etag
  unfolding decode_object
  decode_object_digest l etag shards bytes h =
      let (packed, h') =
        after_ok (erasure (decode_erasure shards l.0 l.1))
          (λ c. (if ltb 0 l.2 then decompress deps c else ok c) >>= verify) bytes h in
      verified codec.digest etag (if ltb 0 l.2 then decompress deps packed else ok packed) bytes h'
    where
      verify : Bytes → Result StorageFault Bytes
      verify b =
          if codec.digest b == etag then ok b else err (data_corruption etag (codec.digest b))

  -- What `get_chunks` returns for an object whose metadata are found has the digest that the
  -- metadata keep, whatever the files hold.
  pub get_chunks_digest :
      (bucket key : Text) (m : ObjectMetadata) (bytes : Bytes) (s : Store deps)
      → (Index.get_object index bucket key s.db).0 ≡ ok m
      → (get_chunks deps bucket key s).0 ≡ ok bytes
      → codec.digest bytes ≡ m.etag
  get_chunks_digest bucket key m bytes s found got =
      let h = sym (get_chunks_lem deps bucket key m s found) ∙ got in
      let (shards, decoded) =
        after_ok
          (load_shards bucket (object_id bucket key) (get_layout m.policy).0 0
            ((get_layout m.policy).0 + (get_layout m.policy).1) s.files)
          (decode_object deps (get_layout m.policy) m.etag) bytes h in
      decode_object_digest (get_layout m.policy) m.etag shards bytes decoded

  -- An object whose metadata are found and one of whose data shards is missing cannot be read, and
  -- the error says so.
  get_chunks_missing_shard :
      (bucket key : Text) (m : ObjectMetadata) (j : ℕ) (s : Store deps)
      → (Index.get_object index bucket key s.db).0 ≡ ok m
      → j < (get_layout m.policy).0
      → read_file (shard_path bucket (object_id bucket key) j) s.files ≡ none
      → (get_chunks deps bucket key s).0 ≡ err insufficient_shards
  get_chunks_missing_shard bucket key m j s found is_data gone =
      get_chunks_lem deps bucket key m s found
      ∙ rw
          (load_shards-missing bucket (object_id bucket key) (get_layout m.policy).0 0
            ((get_layout m.policy).0 + (get_layout m.policy).1) j s.files (omega arith)
            (omega arith) is_data gone)
          refl
