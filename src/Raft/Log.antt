-- ===== src/Raft/Log.antt =====
-- agent/src/raft/store.rs, the log store: entries under their big-endian index in the tree
-- `entries`, the vote, the committed id and the last purged id in the tree `meta`.
-- A failed operation returns its error alone: what it had written by then is not modelled.
-- `panic` is a key of less than eight bytes, at which the slice of `decode_index` panics.
pub mod Index
pub mod Invariant
pub mod Removal
pub mod Appending
pub mod Reading
pub mod Ends
use all4one.Prelude.{
  ℕ, ◌≡◌, Bool, true, false, Option, none, some, List, [], ◌∷◌, Text, Bytes, codes, length, take,
  be_bytes, from_be_bytes, ltb, leb, Result, ok, err, panic, ◌>>=◌, nat_eq, if◌then◌else◌,
}
use all4one.External.Sled.{Sled}
use all4one.External.Serde.{Serde}
use all4one.Raft.Machine.{LogId, Entry}

-- `StorageError`: the subject and the verb of openraft's error.
pub data StorageError : Type 0 where
  log_read_err log_write_err vote_read_err vote_write_err sm_read_err sm_write_err : StorageError

unfoldable pub encode_index : ℕ → Bytes
encode_index index = be_bytes 8 index

unfoldable pub decode_index : Bytes → Result StorageError ℕ
decode_index bytes = if ltb (length bytes) 8 then panic else ok (from_be_bytes 0 (take 8 bytes))

abbrev pub entries_tree : Text
entries_tree = codes "entries"

abbrev pub meta_tree : Text
meta_tree = codes "meta"

-- `serde_json::from_slice(..).map_err(..)` and `to_vec(..).map_err(..)`.
abbrev pub parsed {ℓ} : {A : Type ℓ} → StorageError → Option A → Result StorageError A
parsed e none = err e
parsed e (some a) = ok a

-- openraft's `RangeBounds<u64>`, by its test.
abbrev pub IndexRange : Type 0
IndexRange = ℕ → Bool

pub record LogState : Type 0 where
  pub last_purged_log_id : Option LogId
  pub last_log_id : Option LogId

-- The keys that `truncate` and `purge` collect.
pub select_keys : IndexRange → List (Bytes × Bytes) → Result StorageError (List Bytes)
select_keys range [] = ok []
select_keys range ((k, v) ∷ items) = decode_index k >>= λ index.
    select_keys range items >>= λ keys. ok (if range index then k ∷ keys else keys)

module _ {Membership : Type 0} where
  -- `entries.sort_by_key(|e| e.log_id.index)`: a stable insertion sort.
  pub insert_by_index : Entry Membership → List (Entry Membership) → List (Entry Membership)
  insert_by_index e [] = e ∷ []
  insert_by_index e (f ∷ fs) =
      if leb e.log_id.index f.log_id.index then e ∷ f ∷ fs else f ∷ insert_by_index e fs

  pub sort_by_index : List (Entry Membership) → List (Entry Membership)
  sort_by_index [] = []
  sort_by_index (e ∷ es) = insert_by_index e (sort_by_index es)

-- What the log store uses of sled and of serde_json.
pub record LogDeps (Membership Vote : Type 0) : Type 1 where
  pub sled : Sled
  pub entry_json : Serde (Entry Membership)
  pub id_json : Serde LogId
  pub vote_json : Serde Vote

module _ {Membership Vote : Type 0} (deps : LogDeps Membership Vote) where
  open deps use {sled, entry_json, id_json, vote_json}
  open sled use {Db, iter, tree_get, tree_insert, tree_remove, tree_last}

  -- The loop of `try_get_log_entries` over the items of the tree.
  pub read_range : IndexRange → List (Bytes × Bytes) → Result StorageError (List (Entry Membership))
  read_range range [] = ok []
  read_range range ((k, v) ∷ items) =
      let rest = read_range range items in
      decode_index k >>= λ index.
      if range index
      then (parsed log_read_err (entry_json.from_slice v) >>= λ e. rest >>= λ es. ok (e ∷ es))
      else rest

  pub try_get_log_entries : IndexRange → Db → Result StorageError (List (Entry Membership))
  try_get_log_entries range db =
      read_range range (iter entries_tree db) >>= λ es. ok (sort_by_index es)

  abbrev read_last : Option (Bytes × Bytes) → Result StorageError (Option LogId)
  read_last none = ok none
  read_last (some (k, v)) =
      parsed log_read_err (entry_json.from_slice v) >>= λ e. ok (some e.log_id)

  abbrev pub read_id : Option Bytes → Result StorageError (Option LogId)
  read_id none = ok none
  read_id (some b) = parsed log_read_err (id_json.from_slice b) >>= λ i. ok (some i)

  pub get_log_state : Db → Result StorageError LogState
  get_log_state db = read_id (tree_get meta_tree (codes "last_purged") db) >>= λ purged.
      read_last (tree_last entries_tree db) >>= λ last.
      ok (record { last_purged_log_id = purged; last_log_id = last })

  pub save_vote : Vote → Db → Result StorageError Db
  save_vote vote db = parsed vote_write_err (vote_json.to_vec vote) >>= λ b.
      ok (tree_insert meta_tree (codes "vote") b db)

  abbrev read_saved_vote : Option Bytes → Result StorageError (Option Vote)
  read_saved_vote none = ok none
  read_saved_vote (some b) = parsed vote_read_err (vote_json.from_slice b) >>= λ v. ok (some v)

  pub read_vote : Db → Result StorageError (Option Vote)
  read_vote db = read_saved_vote (tree_get meta_tree (codes "vote") db)

  pub save_committed : Option LogId → Db → Result StorageError Db
  save_committed (some id) db = parsed log_write_err (id_json.to_vec id) >>= λ b.
      ok (tree_insert meta_tree (codes "committed") b db)
  save_committed none db = ok (tree_remove meta_tree (codes "committed") db)

  pub read_committed : Db → Result StorageError (Option LogId)
  read_committed db = read_id (tree_get meta_tree (codes "committed") db)

  -- `append` collects a batch and applies it at once: an entry that cannot be written stops it
  -- before anything is stored.
  pub make_batch : List (Entry Membership) → Result StorageError (List (Bytes × Bytes))
  make_batch [] = ok []
  make_batch (e ∷ es) = parsed log_write_err (entry_json.to_vec e) >>= λ val.
      make_batch es >>= λ batch. ok ((encode_index e.log_id.index, val) ∷ batch)

  pub apply_batch : List (Bytes × Bytes) → Db → Db
  apply_batch [] db = db
  apply_batch ((k, v) ∷ batch) db = apply_batch batch (tree_insert entries_tree k v db)

  pub append : List (Entry Membership) → Db → Result StorageError Db
  append entries db = make_batch entries >>= λ batch. ok (apply_batch batch db)

  -- The loop that removes the collected keys.
  pub remove_keys : List Bytes → Db → Db
  remove_keys [] db = db
  remove_keys (k ∷ keys) db = remove_keys keys (tree_remove entries_tree k db)

  pub truncate : LogId → Db → Result StorageError Db
  truncate log_id db = select_keys (λ i. leb log_id.index i) (iter entries_tree db) >>= λ keys.
      ok (remove_keys keys db)

  pub purge : LogId → Db → Result StorageError Db
  purge log_id db = select_keys (λ i. leb i log_id.index) (iter entries_tree db) >>= λ keys.
      parsed log_write_err (id_json.to_vec log_id) >>= λ b.
      ok (tree_insert meta_tree (codes "last_purged") b (remove_keys keys db))
