-- ===== src/Examples.antt =====
-- Concrete libraries and data for the tests and examples of the modules below: a database of sorted
-- cells, and encodings of the values that the examples store.
pub mod Stored
pub mod RaftExamples
pub mod LogExamples
pub mod StorageExamples
pub mod ChunkExamples
pub mod ClusterExamples
pub mod JobExamples
pub mod DispatchExamples
pub mod PeerExamples
pub mod RequestExamples
pub mod StartExamples
pub mod NetworkExamples
use all4one.Prelude.{ℕ, Text, codes}
use all4one.Raft.Machine.{LogId, Entry, blank, membership_change}

abbrev pub id_at : ℕ → LogId
id_at i = record { term = 1; leader = 7; index = i }

abbrev pub blank_at : ℕ → Entry ℕ
blank_at i = record { log_id = id_at i; entry_payload = blank }

abbrev pub change_at : ℕ → ℕ → Entry ℕ
change_at i m = record { log_id = id_at i; entry_payload = membership_change m }

abbrev pub clock : ℕ → Text
clock n = codes "2026"
