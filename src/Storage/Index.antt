-- ===== src/Storage/Index.antt =====
-- agent/src/storage/index.rs: the metadata of the objects, a sled tree for each bucket. An operation
-- returns its result and the database. The cache of open databases is left out: it gives one handle.
-- The bytes of an object's key are its code points.
pub mod Objects
pub mod Listing
pub mod Buckets
use all4one.Prelude.{
  ℕ, suc, Bool, true, false, Option, none, some, List, [], ◌∷◌, ◌++◌, Text, Bytes, codes, leb,
  strip_prefix, starts_with, Result, ok, err, ◌>>=◌, if◌then◌else◌,
}
use all4one.External.Sled.{Sled}
use all4one.External.Serde.{Serde}
use all4one.Storage.Policy.{StoragePolicy, policy_name, replicas}
use all4one.Storage.Metadata.{ObjectMetadata, StorageFault, object_not_found, json_write, json_read}

-- What the index uses of sled and of serde_json.
pub record IndexDeps : Type 1 where
  pub sled : Sled
  pub meta_json : Serde ObjectMetadata

-- The name of a bucket's tree.
abbrev pub bucket_tree : Text → Text
bucket_tree bucket = codes "bucket:" ++ bucket

-- `created_at` and `modified_at` are two readings of the clock.
abbrev pub new_metadata : Text → Text → Text → Text → Text → ℕ → StoragePolicy → ObjectMetadata
new_metadata created_at modified_at bucket key etag size_bytes p = record {
  bucket = bucket;
  key = key;
  size_bytes = size_bytes;
  created_at = created_at;
  modified_at = modified_at;
  etag = etag;
  policy = policy_name p;
  replicas = replicas p;
}

-- The bounds of a listing: `prefix.map_or(true, |p| key.starts_with(p))`, and the default of 1000.
abbrev pub matches_prefix : Option Text → ObjectMetadata → Bool
matches_prefix none m = true
matches_prefix (some p) m = starts_with p m.key

abbrev pub max_or_default : Option ℕ → ℕ
max_or_default none = 1000
max_or_default (some n) = n

-- The names that begin with `bucket:`, without it.
pub bucket_names : List Text → List Text
bucket_names [] = []
bucket_names (name ∷ names) =
    let rest = bucket_names names in
    elim (strip_prefix (codes "bucket:") name) [ some b ↦ b ∷ rest | none ↦ rest ]

module _ (deps : IndexDeps) where
  open deps use {sled, meta_json}
  open sled use {Db, open_tree, tree_names, iter, tree_get, tree_insert, tree_remove}

  abbrev read_metadata : Option ObjectMetadata → Result StorageFault ObjectMetadata
  read_metadata none = err json_read
  read_metadata (some m) = ok m

  unfoldable pub put_object :
      (created_at modified_at bucket key etag : Text)
      → ℕ
      → StoragePolicy
      → Db
      → Result StorageFault (Unit {0}) × Db
  put_object created_at modified_at bucket key etag size_bytes p d =
      let d' = open_tree (bucket_tree bucket) d in
      elim (meta_json.to_vec (new_metadata created_at modified_at bucket key etag size_bytes p)) [
        | none ↦ (err json_write, d')
        | some json ↦ (ok tt, tree_insert (bucket_tree bucket) key json d')
      ]

  -- `ok_or_else` and `from_slice` on what the tree holds.
  abbrev pub read_found : Text → Text → Option Bytes → Result StorageFault ObjectMetadata
  read_found bucket key none = err (object_not_found bucket key)
  read_found bucket key (some json) = read_metadata (meta_json.from_slice json)

  unfoldable pub get_object : Text → Text → Db → Result StorageFault ObjectMetadata × Db
  get_object bucket key d =
      let d' = open_tree (bucket_tree bucket) d in
      (read_found bucket key (tree_get (bucket_tree bucket) key d'), d')

  unfoldable pub delete_object : Text → Text → Db → Result StorageFault (Unit {0}) × Db
  delete_object bucket key d =
      (ok tt, tree_remove (bucket_tree bucket) key (open_tree (bucket_tree bucket) d))

  -- The loop over the items of the tree; `found` is `results.len()`.
  pub list_items :
      Option Text → ℕ → ℕ → List (Bytes × Bytes) → Result StorageFault (List ObjectMetadata)
  list_items prefix max found [] = ok []
  list_items prefix max found ((k, v) ∷ items) = elim (leb max found) [
    | true ↦ ok []
    | false ↦ elim (meta_json.from_slice v) [
      | none ↦ err json_read
      | some m ↦ elim (matches_prefix prefix m) [
        | false ↦ list_items prefix max found items
        | true ↦ list_items prefix max (suc found) items >>= λ rest. ok (m ∷ rest)
      ]
    ]
  ]

  unfoldable pub list_objects :
      Text → Option Text → Option ℕ → Db → Result StorageFault (List ObjectMetadata) × Db
  list_objects bucket prefix max_keys d =
      let d' = open_tree (bucket_tree bucket) d in
      (list_items prefix (max_or_default max_keys) 0 (iter (bucket_tree bucket) d'), d')

  -- `open_tree(..).is_ok()`, which creates the tree.
  pub bucket_exists : Text → Db → Bool × Db
  bucket_exists bucket d = (true, open_tree (bucket_tree bucket) d)

  unfoldable pub create_bucket : Text → Db → Db
  create_bucket bucket d = open_tree (bucket_tree bucket) d

  unfoldable pub list_buckets : Db → List Text
  list_buckets d = bucket_names (tree_names d)
