-- ===== src/Storage/Chunks/RoundTrip.antt =====
-- `put_chunks` and then `get_chunks` (agent/src/storage/chunks.rs).
use all4one.Prelude.{
  ℕ, zero, suc, ◌+◌, ◌≤◌, ◌<◌, ◌≡◌, refl, sym, ap, ◌∙◌, some, List, [], ◌++◌, Text, Bytes, length,
  take, drop, take-append-drop, ltb, Option-cases, inl, inr, subst, ok, err, nat_eq, list_eq,
  beq_refl, ◌==◌, arith, if◌then◌else◌,
}
use all4one.Storage.Policy.{
  StoragePolicy, hot, warm, cold, archive, policy_name, put_layout, get_layout, zstd_level,
}
use all4one.Storage.Policy.Names.{policy_name_readers}
use all4one.Storage.Erasure.{decode_erasure}
use all4one.Storage.Erasure.RoundTrip.{Fits, decode-encode_erasure}
use all4one.Storage.Metadata.{ObjectMetadata, data_corruption}
use all4one.Storage.Index
use all4one.Storage.Index.{new_metadata}
use all4one.Storage.Index.Objects.{get_object-put_object, put_object_lem}
use all4one.Storage.Chunks.{
  Files, ChunkDeps, Store, encoded_shards, compress, decompress, object_id, write_shards,
  load_shards, load_object, put_chunks, get_chunks, decode_object,
}
use all4one.Storage.Chunks.Paths.{max_shards}
use all4one.Storage.Chunks.Writing.{load-write_shards}

pub layout_room : (p : StoragePolicy) → (put_layout p).0 + (put_layout p).1 ≤ max_shards
unfolding put_layout
layout_room hot = omega arith
layout_room warm = omega arith
layout_room cold = omega arith
layout_room archive = omega arith

pub layout_pos : (p : StoragePolicy) → 0 < (put_layout p).0
unfolding put_layout
layout_pos hot = omega arith
layout_pos warm = omega arith
layout_pos cold = omega arith
layout_pos archive = omega arith

-- Where compressing succeeds, decompressing at the same level gives the bytes back.
decompress-compress :
    (deps : ChunkDeps) (bytes packed : Bytes) (level : ℕ)
    → compress deps bytes level ≡ ok packed
    → (if ltb 0 level then decompress deps packed else ok packed) ≡ ok bytes
unfolding compress decompress
decompress-compress deps bytes packed zero h = sym h
decompress-compress deps bytes packed (suc n) h =
    elim (Option-cases (deps.codec.zstd_encode (suc n) bytes)) [
      | inl none_packed ↦ ground (arith, none_packed)
      | inr (c, e) ↦
          let same : c ≡ packed = ground (arith, e) in
          rw (decompress, deps.codec.decode-encode (suc n) bytes packed (e ∙ ap some same))
            (ground arith)
    ]

module _ (deps : ChunkDeps) where
  open deps use {index, codec}
  open index use {meta_json}

  pub put_chunks_lem :
      (clock : ℕ → Text) (bucket key : Text) (bytes json : Bytes) (p : StoragePolicy)
      (shards : List Bytes) (s : Store deps)
      → encoded_shards deps bytes p ≡ ok shards
      → meta_json.to_vec
          (new_metadata (clock 0) (clock 1) bucket key (codec.digest bytes) (length bytes) p)
        ≡ some json
      → put_chunks deps clock bucket key bytes p s ≡ (
        ok (new_metadata (clock 2) (clock 3) bucket key (codec.digest bytes) (length bytes) p),
        record {
          files = write_shards deps bucket (object_id bucket key) (length bytes) 0 shards s.files;
          db =
              (Index.put_object index
                (clock 0)
                (clock 1)
                bucket
                key
                (codec.digest bytes)
                (length bytes)
                p
                s.db).1;
        },
      )
  unfolding put_chunks
  put_chunks_lem clock bucket key bytes json p shards s he hj =
      rw
        (
          put_chunks,
          he,
          put_object_lem index (clock 0) (clock 1) bucket key (codec.digest bytes) (length bytes) p
              json s.db hj,
        )
        refl

  pub get_chunks_lem :
      (bucket key : Text) (m : ObjectMetadata) (s : Store deps)
      → (Index.get_object index bucket key s.db).0 ≡ ok m
      → (get_chunks deps bucket key s).0 ≡ load_object deps m bucket key s.files
  unfolding get_chunks
  get_chunks_lem bucket key m s h = rw (get_chunks, h) refl

  -- The shards of an object decode to it, if the digest that is expected is its digest.
  pub decode_object-encoded :
      (bytes packed : Bytes) (etag : Text) (p : StoragePolicy)
      → compress deps bytes (zstd_level p) ≡ ok packed
      → Fits packed
      → (shards : List Bytes) × (encoded_shards deps bytes p ≡ ok shards)
        × (length shards ≡ (put_layout p).0 + (put_layout p).1)
        × (decode_object deps (get_layout (policy_name p)) etag shards ≡ (
            if codec.digest bytes == etag
            then ok bytes
            else err (data_corruption etag (codec.digest bytes))))
  unfolding decode_object
  decode_object-encoded bytes packed etag p hc fits =
      let d = (put_layout p).0 in
      let k = (put_layout p).1 in
      let (shards, made, count, same, decoded) =
        decode-encode_erasure packed d k k [] fits (layout_pos p) in
      let (shards', made', count', same', decoded') =
        decode-encode_erasure packed d k k (drop d shards) fits (layout_pos p) in
      let agree : shards' ≡ shards = cc in
      let whole : decode_erasure shards d k ≡ ok packed =
        rw (← take-append-drop d shards) (
          subst (λ t. decode_erasure (take d t ++ drop d shards) d k ≡ ok packed) agree decoded') in
      (
        shards,
        rw (hc, made),
        count,
        rw
            (
              (policy_name_readers p).1,
              decode_object,
              whole,
              decompress-compress deps bytes packed (zstd_level p) hc,
            )
            refl,
      )

  -- Loading an object whose shards were written, under its key or another key with the same id.
  pub load_object-written :
      (bucket key written_key : Text) (size : ℕ) (m : ObjectMetadata) (p : StoragePolicy)
      (shards : List Bytes) (files : Files)
      → m.policy ≡ policy_name p
      → object_id bucket key ≡ object_id bucket written_key
      → length shards ≡ (put_layout p).0 + (put_layout p).1
      → load_object deps m bucket key
          (write_shards deps bucket (object_id bucket written_key) size 0 shards files)
        ≡ decode_object deps (get_layout (policy_name p)) m.etag shards
  load_object-written bucket key written_key size m p shards files named same count =
      let id = object_id bucket written_key in
      let written = write_shards deps bucket id size 0 shards files in
      let d = (put_layout p).0 in
      let loaded : load_shards bucket id d 0 (d + (put_layout p).1) written ≡ ok shards =
        subst (λ n. load_shards bucket id d 0 n written ≡ ok shards) count
          (load-write_shards deps bucket id size shards 0 d files
            (omega (arith, count, layout_room p))) in
      rw (same, named, (policy_name_readers p).1, loaded) refl

  -- An object whose bytes can be compressed, prefixed and described is stored, and a `get_chunks` of its
  -- bucket and key then gives its bytes, for every policy.
  pub get_chunks-put_chunks :
      (clock : ℕ → Text) (bucket key : Text) (bytes packed json : Bytes) (p : StoragePolicy)
      (s : Store deps)
      → compress deps bytes (zstd_level p) ≡ ok packed
      → Fits packed
      → meta_json.to_vec
          (new_metadata (clock 0) (clock 1) bucket key (codec.digest bytes) (length bytes) p)
        ≡ some json
      → let stored = put_chunks deps clock bucket key bytes p s in
        (stored.0
          ≡ ok (new_metadata (clock 2) (clock 3) bucket key (codec.digest bytes) (length bytes) p))
        × ((get_chunks deps bucket key stored.1).0 ≡ ok bytes)
  get_chunks-put_chunks clock bucket key bytes packed json p s hc fits hj =
      let (shards, made, count, decoded) =
        decode_object-encoded bytes packed (codec.digest bytes) p hc fits in
      let m = new_metadata (clock 0) (clock 1) bucket key (codec.digest bytes) (length bytes) p in
      let (done, found) =
        get_object-put_object index (clock 0) (clock 1) bucket key (codec.digest bytes)
          (length bytes) p json bucket key s.db hj in
      let there : (Index.get_object index bucket key
            (Index.put_object index (clock 0) (clock 1) bucket key (codec.digest bytes)
              (length bytes) p s.db).1).0
          ≡ ok m =
        found ∙ rw (beq_refl bucket, beq_refl key) refl in
      rw (put_chunks_lem clock bucket key bytes json p shards s made hj) (
        refl,
        get_chunks_lem bucket key m _ there
            ∙ load_object-written bucket key key (length bytes) m p shards s.files refl refl count
            ∙ decoded
            ∙ rw (beq_refl (codec.digest bytes)) refl,
      )

  -- The metadata that a lookup finds after an object was stored.
  pub described-put_chunks :
      (clock : ℕ → Text) (bucket key : Text) (bytes packed json : Bytes) (p : StoragePolicy)
      (s : Store deps)
      → compress deps bytes (zstd_level p) ≡ ok packed
      → Fits packed
      → meta_json.to_vec
          (new_metadata (clock 0) (clock 1) bucket key (codec.digest bytes) (length bytes) p)
        ≡ some json
      → (Index.get_object index bucket key (put_chunks deps clock bucket key bytes p s).1.db).0
        ≡ ok (new_metadata (clock 0) (clock 1) bucket key (codec.digest bytes) (length bytes) p)
  described-put_chunks clock bucket key bytes packed json p s hc fits hj =
      let (shards, made, count, decoded) =
        decode_object-encoded bytes packed (codec.digest bytes) p hc fits in
      let (done, found) =
        get_object-put_object index (clock 0) (clock 1) bucket key (codec.digest bytes)
          (length bytes) p json bucket key s.db hj in
      rw (put_chunks_lem clock bucket key bytes json p shards s made hj)
        (found ∙ rw (beq_refl bucket, beq_refl key) refl)
