-- ===== src/Raft/Log/Reading.antt =====
-- `try_get_log_entries` of agent/src/raft/store.rs: what is read from a log.
use all4one.Prelude.{
  ℕ, ◌<◌, ◌≡◌, refl, ◌∙◌, sym, ap, Option, none, some, List, [], ◌∷◌, Bytes, get, ltb→lt, ok,
  nat_eq, list_eq, list_beq_iff, ◌==◌, arith, Bool-cases, inl, inr, if◌then◌else◌,
}
use all4one.External.Sled.{Before, Ascending}
use all4one.External.SortedEntries.{AllEntries}
use all4one.Raft.Machine.{Entry}
use all4one.Raft.Log.{
  encode_index, IndexRange, LogDeps, entries_tree, read_range, insert_by_index, sort_by_index,
  try_get_log_entries,
}
use all4one.Raft.Log.Index.{
  IsIndex, encode_index-injective, decode_index-encode_index, lex_lt-encode_index,
}
use all4one.Raft.Log.Invariant.{IsEntry, IsLog, IsLog-iter, read_entry, entry_at}

module _ {Membership : Type 0} where
  -- Every index of the list is above `i`; the indices ascend strictly.
  abbrev pub Above : ℕ → List (Entry Membership) → Type 0
  Above i [] = Unit
  Above i (e ∷ es) = (i < e.log_id.index) × Above i es

  abbrev pub AscendingIndices : List (Entry Membership) → Type 0
  AscendingIndices [] = Unit
  AscendingIndices (e ∷ es) = Above e.log_id.index es × AscendingIndices es

  -- The entry of the list that has the index.
  abbrev pub find_index : ℕ → List (Entry Membership) → Option (Entry Membership)
  find_index i [] = none
  find_index i (e ∷ es) = if e.log_id.index == i then some e else find_index i es

  -- Sorting leaves an ascending list as it is.
  insert_by_index-Above :
      (e : Entry Membership) (es : List (Entry Membership))
      → Above e.log_id.index es
      → insert_by_index e es ≡ e ∷ es
  unfolding insert_by_index
  insert_by_index-Above e [] h = refl
  insert_by_index-Above e (f ∷ fs) h = ground arith

  sort_by_index-AscendingIndices :
      (es : List (Entry Membership)) → AscendingIndices es → sort_by_index es ≡ es
  unfolding sort_by_index
  sort_by_index-AscendingIndices [] h = refl
  sort_by_index-AscendingIndices (e ∷ es) h =
      rw (sort_by_index-AscendingIndices es h.1) (insert_by_index-Above e es h.0)

module _ {Membership Vote : Type 0} (deps : LogDeps Membership Vote) where
  open deps use {sled, entry_json, id_json, vote_json}
  open sled use {Db, iter, tree_get}

  -- What the loop returns on the items of a well-formed log.
  record ReadRange (range : IndexRange) (items : List (Bytes × Bytes))
      (es : List (Entry Membership)) : Type 0 where
    returned : read_range deps range items ≡ ok es
    ascending : AscendingIndices es
    above : (i : ℕ) → IsIndex i → Before (encode_index i) items → Above i es
    found :
        (i : ℕ)
        → IsIndex i
        → find_index i es ≡ (if range i then read_entry deps (get (encode_index i) items) else none)

  read_range_lem :
      (range : IndexRange) (items : List (Bytes × Bytes))
      → Ascending items
      → AllEntries (IsEntry entry_json) items
      → (es : List (Entry Membership)) × ReadRange range items es
  unfolding read_range get
  read_range_lem range [] asc h = (
    [],
    record { returned = refl; ascending = tt; above = λ i hi b. tt; found = λ i hi. ground arith },
  )
  read_range_lem range ((k, v) ∷ items) asc ((e, he, key, parse), h) =
      let (es, r) = read_range_lem range items asc.1 h in
      elim (Bool-cases (range e.log_id.index)) [
        | inl inside ↦ (
          e ∷ es,
          record {
            returned =
                rw (key, decode_index-encode_index e.log_id.index he, inside, parse, r.returned);
            ascending = (r.above e.log_id.index he (rw key at asc.0), r.ascending);
            above = λ i hi b. (
              ltb→lt i e.log_id.index
                  (sym (lex_lt-encode_index i e.log_id.index hi he) ∙ rw key at b.0),
              r.above i hi b.1,
            );
            found = λ i hi. ground (
              arith,
              r.found i hi,
              list_beq_iff k (encode_index i),
              encode_index-injective e.log_id.index i he hi,
              ap range {x = e.log_id.index} {y = i},
            );
          },
        )
        | inr outside ↦ (
          es,
          record {
            returned = rw (key, decode_index-encode_index e.log_id.index he, outside, r.returned);
            ascending = r.ascending;
            above = λ i hi b. r.above i hi b.1;
            found = λ i hi. ground (
              arith,
              r.found i hi,
              list_beq_iff k (encode_index i),
              encode_index-injective e.log_id.index i he hi,
              ap range {x = e.log_id.index} {y = i},
            );
          },
        )
      ]

  -- On a well-formed log `try_get_log_entries` succeeds; its entries have strictly ascending indices,
  -- and for every index they hold the entry of the log if the index is in the range, else none.
  pub try_get_log_entries_lem :
      (range : IndexRange) (i : ℕ) (db : Db)
      → IsLog deps db
      → IsIndex i
      → (es : List (Entry Membership)) × (try_get_log_entries deps range db ≡ ok es)
        × AscendingIndices es
        × (find_index i es ≡ (if range i then entry_at deps i db else none))
  unfolding try_get_log_entries
  try_get_log_entries_lem range i db h hi =
      let (es, r) =
        read_range_lem range (iter entries_tree db) (sled.iter-Ascending entries_tree db)
          (IsLog-iter deps db h) in
      (
        es,
        rw r.returned (ap ok (sort_by_index-AscendingIndices es r.ascending)),
        r.ascending,
        rw (sled.get_iter entries_tree (encode_index i) db) (r.found i hi),
      )
