-- ===== src/Storage/Chunks/Parity.antt =====
-- The parity shards in agent/src/storage/chunks.rs are not needed to read an object.
use all4one.Prelude.{
  ℕ, zero, suc, ◌+◌, ◌≤◌, ◌<◌, ◌≡◌, refl, sym, ap, ◌∙◌, true, false, List, [], ◌∷◌, ◌++◌, Text,
  Bytes, ltb, Option-cases, inl, inr, Result, ok, err, panic, ◌>>=◌, nat_eq, list_eq, arith,
}
use all4one.Storage.Policy.{get_layout}
use all4one.Storage.Erasure.{join_shards}
use all4one.Storage.Erasure.RoundTrip.{decode_erasure-join}
use all4one.Storage.Metadata.{ObjectMetadata, StorageFault}
use all4one.Storage.Index
use all4one.Storage.Chunks.{
  Files, ChunkDeps, Store, shard_path, read_file, load_shards, object_id, decode_object, get_chunks,
}
use all4one.Storage.Chunks.RoundTrip.{get_chunks_lem}

-- Two results of reading shards: the same error, or lists whose first `n` shards join to the same.
abbrev SameData : ℕ → Result StorageFault (List Bytes) → Result StorageFault (List Bytes) → Type 0
SameData n (ok a) (ok b) = join_shards n a ≡ join_shards n b
SameData n (err e) (err e') = e ≡ e'
SameData n panic panic = Unit
SameData n _ _ = ⊥

SameData-bind :
    (n : ℕ) (s : Bytes) (a b : Result StorageFault (List Bytes))
    → SameData n a b
    → SameData (suc n) (a >>= λ x. ok (s ∷ x)) (b >>= λ x. ok (s ∷ x))
unfolding join_shards
SameData-bind n s (ok a) (ok b) h = ap (λ k. s ++ k) h
SameData-bind n s (ok a) (err e) h = h
SameData-bind n s (ok a) panic h = h
SameData-bind n s (err e) (ok b) h = h
SameData-bind n s (err e) (err e') h = h
SameData-bind n s (err e) panic h = h
SameData-bind n s panic (ok b) h = h
SameData-bind n s panic (err e) h = h
SameData-bind n s panic panic h = h

-- Reading parity shards only never fails.
load_shards-parity :
    (bucket id : Text) (d i left : ℕ) (files : Files)
    → d ≤ i
    → (shards : List Bytes) × (load_shards bucket id d i left files ≡ ok shards)
unfolding load_shards
load_shards-parity bucket id d i zero files h = ([], refl)
load_shards-parity bucket id d i (suc left) files h =
    let (shards, e) = load_shards-parity bucket id d (suc i) left files (omega arith) in
    let above : ltb i d ≡ false = ground arith in
    elim (Option-cases (read_file (shard_path bucket id i) files)) [
      | inl gone ↦ (shards, rw (load_shards, gone, above) e)
      | inr (shard, here) ↦ (shard ∷ shards, rw (load_shards, here, e) refl)
    ]

-- Files that agree on the data shards give the same data, or the same error.
load_shards-SameData :
    (bucket id : Text) (d i n left : ℕ) (files files' : Files)
    → i + n ≡ d
    → n ≤ left
    → ((j : ℕ)
        → j < d
        → read_file (shard_path bucket id j) files ≡ read_file (shard_path bucket id j) files')
    → SameData n (load_shards bucket id d i left files) (load_shards bucket id d i left files')
unfolding load_shards join_shards
load_shards-SameData bucket id d i zero left files files' e room agree =
    let (a, ea) = load_shards-parity bucket id d i left files (omega arith) in
    let (b, eb) = load_shards-parity bucket id d i left files' (omega arith) in rw (ea, eb) refl
load_shards-SameData bucket id d i (suc n) zero files files' e room agree = absurd (omega arith)
load_shards-SameData bucket id d i (suc n) (suc left) files files' e room agree =
    let rest =
      load_shards-SameData bucket id d (suc i) n left files files' (omega arith) (omega arith)
        agree in
    let below : ltb i d ≡ true = ground arith in
    let same = agree i (omega arith) in
    elim (Option-cases (read_file (shard_path bucket id i) files)) [
      | inl gone ↦ rw (load_shards, gone, sym same ∙ gone, below) refl
      | inr (shard, here) ↦ rw (load_shards, here, sym same ∙ here) (SameData-bind n shard _ _ rest)
    ]

-- Decoding needs the data only.
decode_object-SameData :
    (deps : ChunkDeps) (d k level : ℕ) (etag : Text) (a b : Result StorageFault (List Bytes))
    → SameData d a b
    → (a >>= decode_object deps (d, k, level) etag) ≡ (b >>= decode_object deps (d, k, level) etag)
unfolding decode_object
decode_object-SameData deps d k level etag (ok a) (ok b) h =
    rw (decode_object, decode_erasure-join a b d k h) refl
decode_object-SameData deps d k level etag (ok a) (err e) h = absurd h
decode_object-SameData deps d k level etag (ok a) panic h = absurd h
decode_object-SameData deps d k level etag (err e) (ok b) h = absurd h
decode_object-SameData deps d k level etag (err e) (err e') h = ap err h
decode_object-SameData deps d k level etag (err e) panic h = absurd h
decode_object-SameData deps d k level etag panic (ok b) h = absurd h
decode_object-SameData deps d k level etag panic (err e) h = absurd h
decode_object-SameData deps d k level etag panic panic h = refl

-- Whatever is done to the files, an object whose metadata are found is read as before if its data
-- shards, the first of all its shards, are as before: a parity shard that is lost or damaged is not
-- noticed.
pub get_chunks-parity :
    (deps : ChunkDeps) (bucket key : Text) (m : ObjectMetadata) (files : Files) (s : Store deps)
    → (Index.get_object deps.index bucket key s.db).0 ≡ ok m
    → ((j : ℕ)
        → j < (get_layout m.policy).0
        → read_file (shard_path bucket (object_id bucket key) j) s.files
          ≡ read_file (shard_path bucket (object_id bucket key) j) files)
    → (get_chunks deps bucket key (record s { files = files })).0 ≡ (get_chunks deps bucket key s).0
get_chunks-parity deps bucket key m files s found agree =
    let (d, k, level) = get_layout m.policy in
    let id = object_id bucket key in
    get_chunks_lem deps bucket key m (record s { files = files }) found
    ∙ sym (
        decode_object-SameData deps d k level m.etag (load_shards bucket id d 0 (d + k) s.files)
          (load_shards bucket id d 0 (d + k) files)
          (load_shards-SameData bucket id d 0 d (d + k) s.files files (omega arith) (omega arith)
            agree))
    ∙ sym (get_chunks_lem deps bucket key m s found)
