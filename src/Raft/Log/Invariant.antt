-- ===== src/Raft/Log/Invariant.antt =====
-- The well-formed logs of agent/src/raft/store.rs: every value is an entry, under its own index.
use all4one.Prelude.{ℕ, ◌≡◌, ◌∙◌, Option, none, some, Bytes}
use all4one.External.Serde.{Serde}
use all4one.External.SortedEntries.{AllEntries, AllEntries-get}
use all4one.Raft.Machine.{Entry}
use all4one.Raft.Log.{encode_index, LogDeps, entries_tree}
use all4one.Raft.Log.Index.{IsIndex}

-- The key encodes an index.
abbrev pub IsKey : Bytes → Bytes → Type 0
IsKey k v = (i : ℕ) × IsIndex i × (k ≡ encode_index i)

-- The value is an entry, and the key encodes its index.
abbrev pub IsEntry : {Membership : Type 0} → Serde (Entry Membership) → Bytes → Bytes → Type 0
IsEntry {Membership} entry_json k v =
    (e : Entry Membership) × IsIndex e.log_id.index
    × (k ≡ encode_index e.log_id.index)
    × (entry_json.from_slice v ≡ some e)

module _ {Membership Vote : Type 0} (deps : LogDeps Membership Vote) where
  open deps use {sled, entry_json}
  open sled use {Db, iter, tree_get}

  pub record IsLog (db : Db) : Type 0 where
    pub entry : (k v : Bytes) → tree_get entries_tree k db ≡ some v → IsEntry entry_json k v

  -- The entry stored under an index, as its bytes and as an entry.
  abbrev pub stored : ℕ → Db → Option Bytes
  stored i db = tree_get entries_tree (encode_index i) db

  abbrev pub read_entry : Option Bytes → Option (Entry Membership)
  read_entry none = none
  read_entry (some v) = entry_json.from_slice v

  abbrev pub entry_at : ℕ → Db → Option (Entry Membership)
  entry_at i db = read_entry (stored i db)

  pub IsLog-iter : (db : Db) → IsLog db → AllEntries (IsEntry entry_json) (iter entries_tree db)
  IsLog-iter db h =
      AllEntries-get (IsEntry entry_json) (iter entries_tree db)
        (sled.iter-Ascending entries_tree db)
        (λ k v found. h.entry k v (sled.get_iter entries_tree k db ∙ found))
