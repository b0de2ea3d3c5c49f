-- ===== src/Storage/Metadata.antt =====
-- agent/src/storage/mod.rs: the metadata of an object, and the errors of the storage functions.
use all4one.Prelude.{ℕ, Text}
use all4one.Storage.Erasure.{ErasureError}

pub record ObjectMetadata : Type 0 where
  pub bucket : Text
  pub key : Text
  pub size_bytes : ℕ
  pub created_at : Text
  pub modified_at : Text
  pub etag : Text
  pub policy : Text
  pub replicas : ℕ

-- The messages of `anyhow!`, and the errors that `?` passes on from serde_json and zstd.
pub data StorageFault : Type 0 where
  object_not_found : (bucket key : Text) → StorageFault
  json_write json_read : StorageFault
  compression_failed decompression_failed : StorageFault
  insufficient_shards : StorageFault
  erasure_fault : ErasureError → StorageFault
  data_corruption : (expected got : Text) → StorageFault
