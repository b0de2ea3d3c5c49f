-- ===== src/Raft/Log/Ends.antt =====
-- `get_log_state` of agent/src/raft/store.rs: what is last in a log.
use all4one.Prelude.{
  ℕ, ◌<◌, ◌≡◌, refl, ◌∙◌, sym, subst, Option, none, some, List, [], ◌∷◌, Bytes, get, codes, ltb,
  ltb→lt, ok, nat_eq, list_eq, list_beq_iff, beq_refl, arith, Bool-cases, inl, inr, if◌then◌else◌,
}
use all4one.External.Sled.{Before, Ascending, last_entry}
use all4one.External.SortedEntries.{AllEntries}
use all4one.Raft.Machine.{LogId, Entry}
use all4one.Raft.Log.{
  encode_index, LogDeps, entries_tree, meta_tree, get_log_state, read_id, read_last,
}
use all4one.Raft.Log.Index.{IsIndex, encode_index-injective, lex_lt-encode_index}
use all4one.Raft.Log.Invariant.{IsEntry, IsLog, IsLog-iter, read_entry, entry_at}

module _ {Membership Vote : Type 0} (deps : LogDeps Membership Vote) where
  open deps use {sled, entry_json, id_json, vote_json}
  open sled use {Db, iter, tree_get}

  -- What is known of the last of some items, `l`.
  record LastEntry (items : List (Bytes × Bytes)) (l : Entry Membership) : Type 0 where
    returned : read_last deps (last_entry items) ≡ ok (some l.log_id)
    index : IsIndex l.log_id.index
    found : read_entry deps (get (encode_index l.log_id.index) items) ≡ some l
    highest : (i : ℕ) → IsIndex i → l.log_id.index < i → get (encode_index i) items ≡ none
    below : (i : ℕ) → IsIndex i → Before (encode_index i) items → i < l.log_id.index

  last_entry_lem :
      (k v : Bytes) (items : List (Bytes × Bytes))
      → Ascending ((k, v) ∷ items)
      → AllEntries (IsEntry entry_json) ((k, v) ∷ items)
      → (l : Entry Membership) × LastEntry ((k, v) ∷ items) l
  unfolding get
  last_entry_lem k v [] asc ((e, he, key, parse), h) = (
    e,
    record {
      returned = rw parse;
      index = he;
      found = rw (key, beq_refl (encode_index e.log_id.index)) parse;
      highest = λ i hi lt.
          ground
            (arith, list_beq_iff k (encode_index i), encode_index-injective e.log_id.index i he hi);
      below = λ i hi b.
          ltb→lt i e.log_id.index
            (sym (lex_lt-encode_index i e.log_id.index hi he) ∙ rw key at b.0);
    },
  )
  last_entry_lem k v ((j, w) ∷ items) asc ((e, he, key, parse), h) =
      let (l, r) = last_entry_lem j w items asc.1 h in
      let lower : e.log_id.index < l.log_id.index =
        r.below e.log_id.index he (subst (λ x. Before x ((j, w) ∷ items)) key asc.0) in
      (
        l,
        record {
          returned = r.returned;
          index = r.index;
          found = ground (
            arith,
            r.found,
            list_beq_iff k (encode_index l.log_id.index),
            encode_index-injective e.log_id.index l.log_id.index he r.index,
          );
          highest = λ i hi lt. ground (
            arith,
            r.highest i hi lt,
            list_beq_iff k (encode_index i),
            encode_index-injective e.log_id.index i he hi,
          );
          below = λ i hi b. r.below i hi b.1;
        },
      )

  -- `last` is the id of an entry of the log, and `i`, if it is higher, has no entry; without a last
  -- id no `i` has an entry.
  abbrev pub IsLastId : Db → ℕ → Option LogId → Type 0
  IsLastId db i none = entry_at deps i db ≡ none
  IsLastId db i (some id) =
      ((e : Entry Membership) × (entry_at deps id.index db ≡ some e) × (e.log_id ≡ id))
      × ((if ltb id.index i then entry_at deps i db else none) ≡ none)

  read_last_lem :
      (i : ℕ) (db : Db) (items : List (Bytes × Bytes))
      → IsIndex i
      → items ≡ iter entries_tree db
      → Ascending items
      → AllEntries (IsEntry entry_json) items
      → (last : Option LogId) × (read_last deps (last_entry items) ≡ ok last) × IsLastId db i last
  read_last_lem i db [] hi e asc h =
      (none, refl, rw (sled.get_iter entries_tree (encode_index i) db, ← e) (unfold get in refl))
  read_last_lem i db ((k, v) ∷ items) hi e asc h =
      let (l, r) = last_entry_lem k v items asc h in
      (
        some l.log_id,
        r.returned,
        (
          (l, rw (sled.get_iter entries_tree (encode_index l.log_id.index) db, ← e) r.found, refl),
          elim (Bool-cases (ltb l.log_id.index i)) [
            | inl lt ↦ rw (
              lt,
              sled.get_iter entries_tree (encode_index i) db,
              ← e,
              r.highest i hi (ltb→lt l.log_id.index i lt),
            )
            | inr ge ↦ rw ge
          ],
        ),
      )

  -- On a well-formed log whose last purged id can be read `get_log_state` succeeds with that id, and
  -- with the id of the highest entry as last id, which is none exactly if the log has no entry: also
  -- where entries were purged.
  pub get_log_state_lem :
      (i : ℕ) (purged : Option LogId) (db : Db)
      → IsLog deps db
      → IsIndex i
      → read_id deps (tree_get meta_tree (codes "last_purged") db) ≡ ok purged
      → (last : Option LogId) × (get_log_state deps db
          ≡ ok (record { last_purged_log_id = purged; last_log_id = last }))
        × IsLastId db i last
  unfolding get_log_state
  get_log_state_lem i purged db h hi readable =
      let (last, returned, is_last) =
        read_last_lem i db (iter entries_tree db) hi refl (sled.iter-Ascending entries_tree db)
          (IsLog-iter deps db h) in
      (last, rw (readable, sled.last_iter entries_tree db, returned), is_last)
