-- ===== src/Examples/Stored.antt =====
-- Encodings of the values that the examples store: of log ids, entries, states and metadata.
use all4one.Prelude.{
  ℕ, ◌≡◌, refl, subst, Option, none, some, [], ◌∷◌, ◌++◌, Text, Bytes, Map, length, take, drop,
  take-append, drop-append,
}
use all4one.External.Serde.{Serde}
use all4one.External.SledModel.{cell_db}
use all4one.External.Codec.{plain_codec}
use all4one.Raft.Commands.{RegisteredJob, EnrollToken}
use all4one.Raft.Machine.{LogId, RaftState, Entry, EntryPayload, blank, normal, membership_change}
use all4one.Raft.Log.{LogDeps}
use all4one.Raft.Snapshot.{MachineDeps}
use all4one.Storage.Metadata.{ObjectMetadata}
use all4one.Storage.Index.{IndexDeps}
use all4one.Storage.Chunks.{ChunkDeps}

-- What is read from the bytes of a value that can be written.
pub written :
    {A : Type 0} (read : Bytes → Option A) (a : A) (x b : Bytes)
    → read x ≡ some a
    → some x ≡ some b
    → read b ≡ some a
written read a x b h e = let same : x ≡ b = cc in subst (λ c. read c ≡ some a) same h

abbrev read_number : Bytes → Option ℕ
read_number (n ∷ []) = some n
read_number _ = none

abbrev pub number_json : Serde ℕ
number_json = record {
  to_vec = λ n. some (n ∷ []);
  from_slice = read_number;
  from_slice-to_vec = λ n b h. written read_number n (n ∷ []) b refl h;
}

abbrev id_bytes : LogId → Bytes
id_bytes i = i.term ∷ i.leader ∷ i.index ∷ []

abbrev read_log_id : Bytes → Option LogId
read_log_id (t ∷ l ∷ i ∷ []) = some (record { term = t; leader = l; index = i })
read_log_id _ = none

abbrev pub log_id_json : Serde LogId
log_id_json = record {
  to_vec = λ i. some (id_bytes i);
  from_slice = read_log_id;
  from_slice-to_vec = λ i b h. written read_log_id i (id_bytes i) b refl h;
}

-- Entries without a command.
abbrev entry_bytes : LogId → EntryPayload ℕ → Option Bytes
entry_bytes i blank = some (id_bytes i)
entry_bytes i (normal cmd) = none
entry_bytes i (membership_change m) = some (m ∷ id_bytes i)

abbrev read_log_entry : Bytes → Option (Entry ℕ)
read_log_entry (t ∷ l ∷ i ∷ []) =
    some (record { log_id = record { term = t; leader = l; index = i }; entry_payload = blank })
read_log_entry (m ∷ t ∷ l ∷ i ∷ []) = some (record {
  log_id = record { term = t; leader = l; index = i };
  entry_payload = membership_change m;
})
read_log_entry _ = none

pub entry_law :
    (i : LogId) (p : EntryPayload ℕ) (b : Bytes)
    → entry_bytes i p ≡ some b
    → read_log_entry b ≡ some (record { log_id = i; entry_payload = p })
entry_law i blank b h = written read_log_entry _ (id_bytes i) b refl h
entry_law i (normal cmd) b h = absurd cc
entry_law i (membership_change m) b h = written read_log_entry _ (m ∷ id_bytes i) b refl h

abbrev pub entry_json : Serde (Entry ℕ)
entry_json = record {
  to_vec = λ e. entry_bytes e.log_id e.entry_payload;
  from_slice = read_log_entry;
  from_slice-to_vec = λ e b h. entry_law e.log_id e.entry_payload b h;
}

abbrev pub log_deps : LogDeps ℕ ℕ
log_deps = record {
  sled = cell_db;
  entry_json = entry_json;
  id_json = log_id_json;
  vote_json = number_json;
}

-- States that an entry was applied to, without jobs and tokens, the membership never changed.
abbrev state_bytes :
    Option LogId → Option LogId → ℕ → Map Text RegisteredJob → Map Text EnrollToken → Option Bytes
state_bytes (some i) none m [] [] = some (m ∷ id_bytes i)
state_bytes _ _ m _ _ = none

abbrev pub fresh_state : RaftState ℕ
fresh_state = record {
  last_applied = none;
  last_membership = record { log_id = none; membership = 0 };
  job_registry = [];
  enroll_tokens = [];
}

abbrev read_state : Bytes → Option (RaftState ℕ)
read_state (m ∷ t ∷ l ∷ i ∷ []) = some (record {
  last_applied = some (record { term = t; leader = l; index = i });
  last_membership = record { log_id = none; membership = m };
  job_registry = [];
  enroll_tokens = [];
})
read_state _ = none

pub state_law :
    (i j : Option LogId) (m : ℕ) (r : Map Text RegisteredJob) (t : Map Text EnrollToken) (b : Bytes)
    → state_bytes i j m r t ≡ some b
    → read_state b
      ≡ some (record {
        last_applied = i;
        last_membership = record { log_id = j; membership = m };
        job_registry = r;
        enroll_tokens = t;
      })
state_law (some i) none m [] [] b h = written read_state _ (m ∷ id_bytes i) b refl h
state_law none j m r t b h = absurd cc
state_law (some i) (some j) m r t b h = absurd cc
state_law (some i) none m (e ∷ r) t b h = absurd cc
state_law (some i) none m [] (e ∷ t) b h = absurd cc

abbrev pub machine_deps : MachineDeps ℕ
machine_deps = record {
  sled = cell_db;
  state_json = record {
    to_vec = λ s.
        state_bytes s.last_applied s.last_membership.log_id s.last_membership.membership
          s.job_registry s.enroll_tokens;
    from_slice = read_state;
    from_slice-to_vec = λ s b h.
        state_law s.last_applied s.last_membership.log_id s.last_membership.membership
          s.job_registry s.enroll_tokens b h;
  };
  default_state = fresh_state;
}

-- Metadata of buckets, keys and times of one letter.
abbrev meta_bytes : Text → Text → Text → Text → ObjectMetadata → Option Bytes
meta_bytes (b ∷ []) (k ∷ []) (c ∷ []) (m ∷ []) o =
    some (b ∷ k ∷ c ∷ m ∷ o.size_bytes ∷ o.replicas ∷ length o.policy ∷ (o.policy ++ o.etag))
meta_bytes _ _ _ _ o = none

abbrev read_meta : Bytes → Option ObjectMetadata
read_meta (b ∷ k ∷ c ∷ m ∷ s ∷ r ∷ n ∷ rest) = some (record {
  bucket = b ∷ [];
  key = k ∷ [];
  size_bytes = s;
  created_at = c ∷ [];
  modified_at = m ∷ [];
  etag = drop n rest;
  policy = take n rest;
  replicas = r;
})
read_meta _ = none

pub meta_law :
    (bucket key created modified : Text) (o : ObjectMetadata) (b : Bytes)
    → meta_bytes bucket key created modified o ≡ some b
    → read_meta b
      ≡ some (record o { bucket = bucket; key = key; created_at = created; modified_at = modified })
meta_law (b ∷ []) (k ∷ []) (c ∷ []) (m ∷ []) o x h =
    written read_meta _
      (b ∷ k ∷ c ∷ m ∷ o.size_bytes ∷ o.replicas ∷ length o.policy ∷ (o.policy ++ o.etag)) x
      (rw (take-append o.policy o.etag, drop-append o.policy o.etag) refl) h
meta_law [] k c m o x h = absurd cc
meta_law (b ∷ d ∷ t) k c m o x h = absurd cc
meta_law (b ∷ []) [] c m o x h = absurd cc
meta_law (b ∷ []) (k ∷ d ∷ t) c m o x h = absurd cc
meta_law (b ∷ []) (k ∷ []) [] m o x h = absurd cc
meta_law (b ∷ []) (k ∷ []) (c ∷ d ∷ t) m o x h = absurd cc
meta_law (b ∷ []) (k ∷ []) (c ∷ []) [] o x h = absurd cc
meta_law (b ∷ []) (k ∷ []) (c ∷ []) (m ∷ d ∷ t) o x h = absurd cc

abbrev pub index_deps : IndexDeps
index_deps = record {
  sled = cell_db;
  meta_json = record {
    to_vec = λ o. meta_bytes o.bucket o.key o.created_at o.modified_at o;
    from_slice = read_meta;
    from_slice-to_vec = λ o b h. meta_law o.bucket o.key o.created_at o.modified_at o b h;
  };
}

abbrev pub chunk_deps : ChunkDeps
chunk_deps = record { index = index_deps; codec = plain_codec }
