-- ===== src/Examples/LogExamples.antt =====
-- The properties of the log store of agent/src/raft/store.rs at a log of two entries.
use all4one.Prelude.{
  ℕ, ◌≡◌, refl, ap, ◌∙◌, Option, none, some, List, [], ◌∷◌, Bytes, codes, leb, nat_eq, list_eq,
  arith, ok,
}
use all4one.External.SledModel.{cell_db}
use all4one.Raft.Machine.{LogId, Entry}
use all4one.Raft.Log.{
  entries_tree, meta_tree, IndexRange, try_get_log_entries, get_log_state, read_vote, read_id,
  append, truncate, purge,
}
use all4one.Raft.Log.Invariant.{IsLog, stored, entry_at}
use all4one.Raft.Log.Appending.{append_lem, last_with, Writable}
use all4one.Raft.Log.Removal.{truncate_lem, purge_lem}
use all4one.Raft.Log.Reading.{try_get_log_entries_lem, AscendingIndices, find_index}
use all4one.Raft.Log.Ends.{get_log_state_lem, IsLastId}
use all4one.Examples.{id_at, blank_at, change_at}
use all4one.Examples.Stored.{log_deps}

empty-IsLog : IsLog log_deps cell_db.empty
empty-IsLog = record {
  entry = λ k v found. absurd (ground (arith, cell_db.get-empty entries_tree k));
}

abbrev two_entries : List (Entry ℕ)
two_entries = blank_at 3 ∷ change_at 4 9 ∷ []

two_entries-Writable : Writable log_deps two_entries
two_entries-Writable =
    (omega arith, (1 ∷ 7 ∷ 3 ∷ [], refl), (omega arith, (9 ∷ 1 ∷ 7 ∷ 4 ∷ [], refl), tt))

append_lem_example :
    (db' : cell_db.Db) × (append log_deps two_entries cell_db.empty ≡ ok db')
    × (entry_at log_deps 4 db'
        ≡ last_with log_deps 4 two_entries (entry_at log_deps 4 cell_db.empty))
    × ((k : Bytes) → cell_db.tree_get meta_tree k db' ≡ cell_db.tree_get meta_tree k cell_db.empty)
    × IsLog log_deps db'
append_lem_example =
    append_lem log_deps 4 two_entries cell_db.empty (omega arith) two_entries-Writable empty-IsLog

-- The log with the two entries.
abbrev two_log : cell_db.Db
two_log =
    (append_lem log_deps 4 two_entries cell_db.empty (omega arith) two_entries-Writable
      empty-IsLog).0

two_log-IsLog : IsLog log_deps two_log
two_log-IsLog =
    (append_lem log_deps 4 two_entries cell_db.empty (omega arith) two_entries-Writable
      empty-IsLog).4

truncate_lem_example :
    (db' : cell_db.Db) × (truncate log_deps (id_at 4) two_log ≡ ok db')
    × (stored log_deps 3 db' ≡ stored log_deps 3 two_log)
    × ((k : Bytes) → cell_db.tree_get meta_tree k db' ≡ cell_db.tree_get meta_tree k two_log)
    × IsLog log_deps db'
truncate_lem_example = truncate_lem log_deps (id_at 4) 3 two_log two_log-IsLog (omega arith)

purge_lem_example :
    (db' : cell_db.Db) × (purge log_deps (id_at 3) two_log ≡ ok db')
    × (stored log_deps 3 db' ≡ none)
    × (read_id log_deps (cell_db.tree_get meta_tree (codes "last_purged") db')
        ≡ ok (some (id_at 3)))
    × (read_vote log_deps db' ≡ read_vote log_deps two_log)
    × IsLog log_deps db'
purge_lem_example =
    purge_lem log_deps (id_at 3) (1 ∷ 7 ∷ 3 ∷ []) 3 two_log refl two_log-IsLog (omega arith)

abbrev from_four : IndexRange
from_four i = leb 4 i

try_get_log_entries_lem_example :
    (es : List (Entry ℕ)) × (try_get_log_entries log_deps from_four two_log ≡ ok es)
    × AscendingIndices es
    × (find_index 4 es ≡ entry_at log_deps 4 two_log)
try_get_log_entries_lem_example =
    try_get_log_entries_lem log_deps from_four 4 two_log two_log-IsLog (omega arith)

two_log_unpurged :
    read_id log_deps (cell_db.tree_get meta_tree (codes "last_purged") two_log) ≡ ok none
two_log_unpurged =
    ap (read_id log_deps) (
      (append_lem log_deps 4 two_entries cell_db.empty (omega arith) two_entries-Writable
          empty-IsLog).3
        (codes "last_purged"))
    ∙ ap (read_id log_deps) (cell_db.get-empty meta_tree (codes "last_purged"))

get_log_state_lem_example :
    (last : Option LogId) × (get_log_state log_deps two_log
      ≡ ok (record { last_purged_log_id = none; last_log_id = last }))
    × IsLastId log_deps two_log 4 last
get_log_state_lem_example =
    get_log_state_lem log_deps 4 none two_log two_log-IsLog (omega arith) two_log_unpurged
