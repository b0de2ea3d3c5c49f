-- ===== src/Storage/Index/Objects.antt =====
-- Storing, looking up and deleting metadata in agent/src/storage/index.rs.
use all4one.Prelude.{
  ℕ, ◌≡◌, refl, ◌&&◌, some, Text, Bytes, ok, err, nat_eq, list_eq, ◌==◌, Bool-cases, inl, inr,
  if◌then◌else◌,
}
use all4one.Storage.Policy.{StoragePolicy}
use all4one.Storage.Metadata.{object_not_found}
use all4one.Storage.Index.{
  IndexDeps, bucket_tree, new_metadata, read_found, put_object, get_object, delete_object,
}

module _ (deps : IndexDeps) where
  open deps use {sled, meta_json}
  open sled use {
    Db, open_tree, tree_get, tree_insert, tree_remove, get-open_tree, get-tree_insert,
    get-tree_remove,
  }

  pub get_object_lem :
      (bucket key : Text) (d : Db)
      → (get_object deps bucket key d).0
        ≡ read_found deps bucket key (tree_get (bucket_tree bucket) key d)
  unfolding get_object
  get_object_lem bucket key d = rw (get-open_tree (bucket_tree bucket) (bucket_tree bucket) key d)

  pub put_object_lem :
      (created modified bucket key etag : Text) (size : ℕ) (p : StoragePolicy) (json : Bytes)
      (d : Db)
      → meta_json.to_vec (new_metadata created modified bucket key etag size p) ≡ some json
      → put_object deps created modified bucket key etag size p d
        ≡ (ok tt, tree_insert (bucket_tree bucket) key json (open_tree (bucket_tree bucket) d))
  unfolding put_object
  put_object_lem created modified bucket key etag size p json d written = rw (put_object, written)

  -- Metadata that can be written are stored: a lookup of the same bucket and key then gives them, and
  -- a lookup of any other bucket or key gives what it gave before.
  pub get_object-put_object :
      (created modified bucket key etag : Text) (size : ℕ) (p : StoragePolicy) (json : Bytes)
      (bucket' key' : Text) (d : Db)
      → meta_json.to_vec (new_metadata created modified bucket key etag size p) ≡ some json
      → let stored = put_object deps created modified bucket key etag size p d in
        (stored.0 ≡ ok tt)
        × ((get_object deps bucket' key' stored.1).0 ≡ (
            if bucket == bucket' && key == key'
            then ok (new_metadata created modified bucket key etag size p)
            else (get_object deps bucket' key' d).0))
  get_object-put_object created modified bucket key etag size p json bucket' key' d written =
      let t = bucket_tree bucket in
      let t' = bucket_tree bucket' in
      let d' = open_tree t d in
      rw (put_object_lem created modified bucket key etag size p json d written) (
        refl,
        rw
            (
              get_object_lem bucket' key' (tree_insert t key json d'),
              get_object_lem bucket' key' d,
              get-tree_insert t t' key key' json d',
              get-open_tree t t' key' d,
            )
            (elim (Bool-cases (bucket == bucket' && key == key')) [
              | inl same ↦ rw (same, meta_json.from_slice-to_vec _ json written)
              | inr other ↦ rw other
            ]),
      )

  -- After a deletion the key is not found, and a lookup of any other bucket or key gives what it gave
  -- before; deleting succeeds also where there is no such object.
  pub get_object-delete_object :
      (bucket key bucket' key' : Text) (d : Db)
      → ((delete_object deps bucket key d).0 ≡ ok tt)
        × ((get_object deps bucket' key' (delete_object deps bucket key d).1).0 ≡ (
            if bucket == bucket' && key == key'
            then err (object_not_found bucket' key')
            else (get_object deps bucket' key' d).0))
  unfolding delete_object
  get_object-delete_object bucket key bucket' key' d =
      let t = bucket_tree bucket in
      let t' = bucket_tree bucket' in
      let d' = open_tree t d in
      (
        refl,
        rw
            (
              get_object_lem bucket' key' (tree_remove t key d'),
              get_object_lem bucket' key' d,
              get-tree_remove t t' key key' d',
              get-open_tree t t' key' d,
            )
            (elim (Bool-cases (bucket == bucket' && key == key')) [
              | inl same ↦ rw same
              | inr other ↦ rw other
            ]),
      )
