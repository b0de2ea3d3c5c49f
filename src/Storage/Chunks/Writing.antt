-- ===== src/Storage/Chunks/Writing.antt =====
-- What the loop of `put_chunks` writes, the loop of `get_chunks` reads (agent/src/storage/chunks.rs).
use all4one.Prelude.{
  ℕ, suc, ◌+◌, ◌≤◌, ◌<◌, ◌≡◌, refl, ◌∙◌, false, List, [], ◌∷◌, Text, Bytes, length, insert,
  get-insert, nat_beq, nat_beq_iff, nat_eq, list_eq, beq_refl, some, ok, arith, if◌then◌else◌,
}
use all4one.Storage.Chunks.{
  Files, shard_path, meta_path, shard_meta, read_file, ChunkDeps, write_shards, load_shards,
}
use all4one.Storage.Chunks.Paths.{max_shards, shard_path_eq, meta_path_ne}

module _ (deps : ChunkDeps) (bucket id : Text) (size : ℕ) where
  open deps use {codec}

  abbrev pub write_one : ℕ → Bytes → Files → Files
  write_one i shard files =
      insert (meta_path bucket id i) (shard_meta i (codec.digest shard) size)
        (insert (shard_path bucket id i) shard files)

  -- Writing the i-th shard changes no other shard.
  pub read-write_one :
      (i j : ℕ) (shard : Bytes) (files : Files)
      → i < max_shards
      → j < max_shards
      → read_file (shard_path bucket id j) (write_one i shard files)
        ≡ (if nat_beq i j then some shard else read_file (shard_path bucket id j) files)
  read-write_one i j shard files hi hj =
      rw
        (
          get-insert (meta_path bucket id i) (shard_path bucket id j)
              (shard_meta i (codec.digest shard) size)
              (insert (shard_path bucket id i) shard files),
          meta_path_ne bucket id i j hi hj,
          get-insert (shard_path bucket id i) (shard_path bucket id j) shard files,
          shard_path_eq bucket id i j hi hj,
        )
        refl

  -- Writing the shards from the i-th on changes none before.
  pub read-write_shards :
      (shards : List Bytes) (i j : ℕ) (files : Files)
      → i + length shards ≤ max_shards
      → j < i
      → read_file (shard_path bucket id j) (write_shards deps bucket id size i shards files)
        ≡ read_file (shard_path bucket id j) files
  unfolding write_shards
  read-write_shards [] i j files room before = refl
  read-write_shards (s ∷ shards) i j files room before =
      read-write_shards shards (suc i) j (write_one i s files) (omega arith) (omega arith)
      ∙ read-write_one i j s files (omega arith) (omega arith)
      ∙ rw (apart i j before) refl
    where
      apart : (i j : ℕ) → j < i → nat_beq i j ≡ false
      apart i j h = ground (arith, nat_beq_iff i j)

  -- Loading all shards from the i-th on gives those that were written.
  pub load-write_shards :
      (shards : List Bytes) (i data_shards : ℕ) (files : Files)
      → i + length shards ≤ max_shards
      → load_shards bucket id data_shards i
          (length shards)
          (write_shards deps bucket id size i shards files)
        ≡ ok shards
  unfolding write_shards load_shards
  load-write_shards [] i d files room = refl
  load-write_shards (s ∷ shards) i d files room =
      let written = write_one i s files in
      let found : read_file (shard_path bucket id i)
            (write_shards deps bucket id size (suc i) shards written)
          ≡ some s =
        read-write_shards shards (suc i) i written (omega arith) (omega arith)
        ∙ read-write_one i i s files (omega arith) (omega arith)
        ∙ rw (beq_refl i) refl in
      rw (load_shards, found, load-write_shards shards (suc i) d written (omega arith)) refl
