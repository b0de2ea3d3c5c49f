-- ===== src/Grpc/Chunks/Collecting.antt =====
-- agent/src/storage/mod.rs: `read_shards` finds what `put_chunks` wrote.
use all4one.Prelude.{
  ℕ, suc, ◌+◌, ◌≤◌, ◌≡◌, refl, ap, ◌∙◌, some, List, [], ◌∷◌, Text, Bytes, length, beq_refl, nat_eq,
  list_eq, arith,
}
use all4one.Storage.Chunks.{Files, ChunkDeps, shard_path, read_file, write_shards, collect_shards}
use all4one.Storage.Chunks.Paths.{max_shards}
use all4one.Storage.Chunks.Writing.{write_one, read-write_one, read-write_shards}

module _ (deps : ChunkDeps) (bucket id : Text) (size : ℕ) where
  open deps use {codec}

  -- The shards with their indices and hashes.
  abbrev pub numbered : ℕ → List Bytes → List (ℕ × Text × Bytes)
  numbered i [] = []
  numbered i (shard ∷ shards) = (i, codec.digest shard, shard) ∷ numbered (suc i) shards

  pub collect-write_shards :
      (shards : List Bytes) (i : ℕ) (files : Files)
      → i + length shards ≤ max_shards
      → collect_shards deps bucket id i
          (length shards)
          (write_shards deps bucket id size i shards files)
        ≡ numbered i shards
  unfolding write_shards collect_shards
  collect-write_shards [] i files room = refl
  collect-write_shards (s ∷ shards) i files room =
      let written = write_one deps bucket id size i s files in
      let found : read_file (shard_path bucket id i)
            (write_shards deps bucket id size (suc i) shards written)
          ≡ some s =
        read-write_shards deps bucket id size shards (suc i) i written (omega arith) (omega arith)
        ∙ read-write_one deps bucket id size i i s files (omega arith) (omega arith)
        ∙ rw (beq_refl i) refl in
      rw (collect_shards, found)
        (ap (λ rest. (i, codec.digest s, s) ∷ rest)
          (collect-write_shards shards (suc i) written (omega arith)))
