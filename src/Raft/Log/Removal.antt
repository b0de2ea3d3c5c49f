-- ===== src/Raft/Log/Removal.antt =====
-- `truncate` and `purge` of agent/src/raft/store.rs: which entries are left.
use all4one.Prelude.{
  ℕ, ◌≡◌, refl, ◌∙◌, ◌&&◌, none, some, List, [], ◌∷◌, Bytes, codes, get, any, leb, ok, nat_eq,
  list_eq, list_beq_iff, contains_key, ◌==◌, arith, if◌then◌else◌,
}
use all4one.External.SortedEntries.{AllEntries, AllEntries-map}
use all4one.Raft.Machine.{LogId}
use all4one.Raft.Log.{
  encode_index, select_keys, IndexRange, LogDeps, entries_tree, meta_tree, remove_keys, truncate,
  purge, read_id, read_vote,
}
use all4one.Raft.Log.Invariant.{IsKey, IsEntry, IsLog, IsLog-iter, stored}
use all4one.Raft.Log.Index.{IsIndex, decode_index-encode_index, encode_index-injective}

-- `select_keys` collects the keys in the range.
select_keys_lem :
    (range : IndexRange) (items : List (Bytes × Bytes))
    → AllEntries IsKey items
    → (keys : List Bytes) × (select_keys range items ≡ ok keys)
      × ((i : ℕ)
          → IsIndex i
          → any (λ k. k == encode_index i) keys ≡ (range i && contains_key (encode_index i) items))
unfolding select_keys get
select_keys_lem range [] h = ([], refl, λ i hi. ground arith)
select_keys_lem range ((k, v) ∷ items) ((i, hi, e), h) =
    let (keys, selected, found) = select_keys_lem range items h in
    (
      if range i then k ∷ keys else keys,
      rw (e, decode_index-encode_index i hi, selected),
      λ j hj.
          ground (
            arith,
            found j hj,
            list_beq_iff k (encode_index j),
            e,
            encode_index-injective i j hi hj,
          ),
    )

module _ {Membership Vote : Type 0} (deps : LogDeps Membership Vote) where
  open deps use {sled, entry_json, id_json, vote_json}
  open sled use {Db, iter, tree_get, tree_insert, tree_remove, get-tree_insert, get-tree_remove}

  IsLog-keys : (db : Db) → IsLog deps db → AllEntries IsKey (iter entries_tree db)
  IsLog-keys db h =
      AllEntries-map (IsEntry entry_json) IsKey (λ k v x. (x.0.log_id.index, x.1, x.2))
        (iter entries_tree db) (IsLog-iter deps db h)

  get-remove_keys :
      (t : List ℕ) (j : Bytes) (keys : List Bytes) (db : Db)
      → tree_get t j (remove_keys deps keys db)
        ≡ (if entries_tree == t && any (λ k. k == j) keys then none else tree_get t j db)
  unfolding remove_keys
  get-remove_keys t j [] db = ground arith
  get-remove_keys t j (k ∷ keys) db = ground (
    arith,
    get-remove_keys t j keys (tree_remove entries_tree k db),
    get-tree_remove entries_tree t k j db,
  )

  -- Removing the keys in a range leaves exactly the entries outside of it.
  removal_lem :
      (range : IndexRange) (db : Db)
      → IsLog deps db
      → (keys : List Bytes) × (select_keys range (iter entries_tree db) ≡ ok keys)
        × ((i : ℕ)
            → IsIndex i
            → stored deps i (remove_keys deps keys db)
              ≡ (if range i then none else stored deps i db))
  removal_lem range db h =
      let (keys, selected, found) =
        select_keys_lem range (iter entries_tree db) (IsLog-keys db h) in
      (
        keys,
        selected,
        λ i hi. ground (
          arith,
          get-remove_keys entries_tree (encode_index i) keys db,
          found i hi,
          sled.get_iter entries_tree (encode_index i) db,
        ),
      )

  -- Removing keys keeps the log well formed.
  remove_keys-IsLog :
      (keys : List Bytes) (db : Db) → IsLog deps db → IsLog deps (remove_keys deps keys db)
  remove_keys-IsLog keys db h = record {
    entry = λ k v found. h.entry k v (ground (arith, get-remove_keys entries_tree k keys db));
  }

  -- On a well-formed log `truncate` succeeds: it removes every entry from the given index
  -- on, leaves every entry before it and everything in the tree `meta`, and the log stays well formed.
  pub truncate_lem :
      (log_id : LogId) (i : ℕ) (db : Db)
      → IsLog deps db
      → IsIndex i
      → (db' : Db) × (truncate deps log_id db ≡ ok db')
        × (stored deps i db' ≡ (if leb log_id.index i then none else stored deps i db))
        × ((k : Bytes) → tree_get meta_tree k db' ≡ tree_get meta_tree k db)
        × IsLog deps db'
  unfolding truncate
  truncate_lem log_id i db h hi =
      let (keys, selected, left) = removal_lem (λ j. leb log_id.index j) db h in
      (
        remove_keys deps keys db,
        rw selected,
        left i hi,
        λ k. get-remove_keys meta_tree k keys db,
        remove_keys-IsLog keys db h,
      )

  -- On a well-formed log, and for an id that can be written, `purge` succeeds: it removes
  -- every entry up to the given index, leaves every entry after it and the saved vote, records the
  -- id as the last purged one, and the log stays well formed.
  pub purge_lem :
      (log_id : LogId) (b : Bytes) (i : ℕ) (db : Db)
      → id_json.to_vec log_id ≡ some b
      → IsLog deps db
      → IsIndex i
      → (db' : Db) × (purge deps log_id db ≡ ok db')
        × (stored deps i db' ≡ (if leb i log_id.index then none else stored deps i db))
        × (read_id deps (tree_get meta_tree (codes "last_purged") db') ≡ ok (some log_id))
        × (read_vote deps db' ≡ read_vote deps db)
        × IsLog deps db'
  unfolding purge read_vote
  purge_lem log_id b i db written h hi =
      let (keys, selected, left) = removal_lem (λ j. leb j log_id.index) db h in
      let rest = remove_keys deps keys db in
      (
        tree_insert meta_tree (codes "last_purged") b rest,
        rw (selected, written),
        get-tree_insert meta_tree entries_tree (codes "last_purged") (encode_index i) b rest
            ∙ left i hi,
        rw (
          get-tree_insert meta_tree meta_tree (codes "last_purged") (codes "last_purged") b rest,
          id_json.from_slice-to_vec log_id b written,
        ),
        rw (
          get-tree_insert meta_tree meta_tree (codes "last_purged") (codes "vote") b rest,
          get-remove_keys meta_tree (codes "vote") keys db,
        ),
        record {
          entry = λ k v found.
              (remove_keys-IsLog keys db h).entry k v (
                rw (get-tree_insert meta_tree entries_tree (codes "last_purged") k b rest) at
                  found);
        },
      )
