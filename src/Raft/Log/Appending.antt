-- ===== src/Raft/Log/Appending.antt =====
-- `append` of agent/src/raft/store.rs: the batch as an update of the log.
use all4one.Prelude.{
  ℕ, ◌≡◌, refl, ◌∙◌, sym, ap, Option, some, List, [], ◌∷◌, Bytes, ok, nat_eq, list_eq, list_beq_iff,
  ◌==◌, arith, Bool-cases, inl, inr, if◌then◌else◌,
}
use all4one.Raft.Machine.{Entry}
use all4one.Raft.Log.{
  encode_index, LogDeps, entries_tree, meta_tree, make_batch, apply_batch, append,
}
use all4one.Raft.Log.Index.{IsIndex, encode_index-injective}
use all4one.Raft.Log.Invariant.{IsEntry, IsLog, entry_at}

module _ {Membership Vote : Type 0} (deps : LogDeps Membership Vote) where
  open deps use {sled, entry_json, id_json, vote_json}
  open sled use {Db, tree_get, tree_insert, get-tree_insert}

  -- Every entry has an index of 64 bits and can be written.
  abbrev pub Writable : List (Entry Membership) → Type 0
  Writable [] = Unit
  Writable (e ∷ es) =
      IsIndex e.log_id.index × ((b : Bytes) × (entry_json.to_vec e ≡ some b)) × Writable es

  -- What an index holds after the entries were written one after the other.
  abbrev pub last_with :
      ℕ → List (Entry Membership) → Option (Entry Membership) → Option (Entry Membership)
  last_with i [] old = old
  last_with i (e ∷ es) old = last_with i es (if e.log_id.index == i then some e else old)

  -- One insertion of the batch.
  entry_at-insert :
      (i : ℕ) (e : Entry Membership) (b : Bytes) (db : Db)
      → IsIndex i
      → IsIndex e.log_id.index
      → entry_json.to_vec e ≡ some b
      → entry_at deps i (tree_insert entries_tree (encode_index e.log_id.index) b db)
        ≡ (if e.log_id.index == i then some e else entry_at deps i db)
  entry_at-insert i e b db hi he written = ground (
    arith,
    get-tree_insert entries_tree entries_tree (encode_index e.log_id.index) (encode_index i) b db,
    list_beq_iff (encode_index e.log_id.index) (encode_index i),
    encode_index-injective e.log_id.index i he hi,
    entry_json.from_slice-to_vec e b written,
  )

  insert-IsLog :
      (e : Entry Membership) (b : Bytes) (db : Db)
      → IsIndex e.log_id.index
      → entry_json.to_vec e ≡ some b
      → IsLog deps db
      → IsLog deps (tree_insert entries_tree (encode_index e.log_id.index) b db)
  insert-IsLog e b db he written h = record {
    entry =
        λ k v found. at k v (sym (get-tree_insert entries_tree entries_tree key k b db) ∙ found);
  }
    where
      key : Bytes
      key = encode_index e.log_id.index

      at :
          (k v : Bytes)
          → (if key == k then some b else tree_get entries_tree k db) ≡ some v
          → IsEntry entry_json k v
      at k v found = elim (Bool-cases (key == k)) [
        | inl same ↦ (
          e,
          he,
          sym ((list_beq_iff key k).0 same),
          cc (rw same at found, entry_json.from_slice-to_vec e b written),
        )
        | inr other ↦ h.entry k v (rw other at found)
      ]

  batch_lem :
      (i : ℕ) (entries : List (Entry Membership)) (db : Db)
      → IsIndex i
      → Writable entries
      → IsLog deps db
      → (batch : List (Bytes × Bytes)) × (make_batch deps entries ≡ ok batch)
        × (entry_at deps i (apply_batch deps batch db) ≡ last_with i entries (entry_at deps i db))
        × ((k : Bytes) → tree_get meta_tree k (apply_batch deps batch db) ≡ tree_get meta_tree k db)
        × IsLog deps (apply_batch deps batch db)
  unfolding make_batch apply_batch
  batch_lem i [] db hi w h = ([], refl, refl, λ k. refl, h)
  batch_lem i (e ∷ es) db hi (he, (b, written), w) h =
      let k = encode_index e.log_id.index in
      let db' = tree_insert entries_tree k b db in
      let (batch, made, at_i, meta, well) =
        batch_lem i es db' hi w (insert-IsLog e b db he written h) in
      (
        (k, b) ∷ batch,
        rw (written, made),
        at_i ∙ ap (last_with i es) (entry_at-insert i e b db hi he written),
        λ j. meta j ∙ get-tree_insert entries_tree meta_tree k j b db,
        well,
      )

  -- On a well-formed log, entries that can be written and whose indices have 64 bits are appended:
  -- each index of 64 bits then holds the last entry of the batch that has this index, or what it
  -- held before; the tree `meta` is as it was and the log well formed.
  pub append_lem :
      (i : ℕ) (entries : List (Entry Membership)) (db : Db)
      → IsIndex i
      → Writable entries
      → IsLog deps db
      → (db' : Db) × (append deps entries db ≡ ok db')
        × (entry_at deps i db' ≡ last_with i entries (entry_at deps i db))
        × ((k : Bytes) → tree_get meta_tree k db' ≡ tree_get meta_tree k db)
        × IsLog deps db'
  unfolding append
  append_lem i entries db hi w h =
      let (batch, made, at_i, meta, well) = batch_lem i entries db hi w h in
      (apply_batch deps batch db, rw made, at_i, meta, well)
