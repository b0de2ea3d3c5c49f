-- ===== src/Storage/Erasure/RoundTrip.antt =====
-- `decode_erasure` after `encode_erasure` of agent/src/storage/chunks.rs.
use all4one.Prelude.{
  ℕ, zero, suc, ◌+◌, ◌^◌, ◌≤◌, ◌<◌, ◌≡◌, refl, ap, ◌∙◌, subst, List, [], ◌∷◌, ◌++◌, append_assoc,
  Bytes, length, take, drop, replicate, take-append, drop-append, length-append, length-le_bytes,
  length-replicate, le_bytes, from_le_bytes-le_bytes, ltb, lt→leb_false, false, ok, arith,
}
use all4one.Storage.Erasure.{
  with_prefix, div_ceil, data_shards_from, join_shards, encode_erasure, decode_erasure,
}
use all4one.Storage.Erasure.Shards.{join_shards-encoded, length-data_shard, div_ceil_room}

-- The data can be addressed with its prefix on a machine of 64 bits.
abbrev pub Fits : Bytes → Type 0
Fits bytes = 8 + length bytes < 2 ^ 64

pub not-short : (a b : ℕ) → b ≤ a → ltb a b ≡ false
not-short a b h = ground arith

-- Decoding depends on what the data shards join to, and on nothing else.
pub decode_erasure-join :
    (a b : List Bytes) (n parity : ℕ)
    → join_shards n a ≡ join_shards n b
    → decode_erasure a n parity ≡ decode_erasure b n parity
unfolding decode_erasure
decode_erasure-join a b n parity h = rw h refl

-- Shards that join to a prefixed text, whatever follows it, decode to the text.
pub decode_erasure-joined :
    (shards : List Bytes) (n parity : ℕ) (bytes tail : Bytes)
    → Fits bytes
    → join_shards n shards ≡ with_prefix bytes ++ tail
    → decode_erasure shards n parity ≡ ok bytes
unfolding decode_erasure with_prefix
decode_erasure-joined shards n parity bytes tail fits e =
    let pre = le_bytes 8 (length bytes) in
    let body = bytes ++ tail in
    let joined : join_shards n shards ≡ pre ++ body = e ∙ append_assoc pre bytes tail in
    let len : length (pre ++ body) ≡ 8 + (length bytes + length tail) =
      omega (
        arith,
        length-append pre body,
        length-append bytes tail,
        length-le_bytes 8 (length bytes),
      ) in
    let front : take 8 (pre ++ body) ≡ pre =
      subst (λ k. take k (pre ++ body) ≡ pre) (length-le_bytes 8 (length bytes))
        (take-append pre body) in
    let back : drop 8 (pre ++ body) ≡ body =
      subst (λ k. drop k (pre ++ body) ≡ body) (length-le_bytes 8 (length bytes))
        (drop-append pre body) in
    rw
      (
        joined,
        front,
        back,
        from_le_bytes-le_bytes 8 (length bytes) (omega arith),
        not-short (length (pre ++ body)) 8 (omega (arith, len)),
        lt→leb_false (2 ^ 64) (8 + length bytes) fits,
        not-short (length (pre ++ body)) (8 + length bytes) (omega (arith, len)),
      )
      (ap ok (take-append bytes tail))

length-with_prefix : (bytes : Bytes) → length (with_prefix bytes) ≡ 8 + length bytes
unfolding with_prefix
length-with_prefix bytes =
    omega (arith, length-append (le_bytes 8 (length bytes)) bytes, length-le_bytes 8 (length bytes))

-- Every shard has the length.
abbrev pub AllLength : ℕ → List Bytes → Type 0
AllLength n [] = Unit
AllLength n (s ∷ shards) = (length s ≡ n) × AllLength n shards

AllLength-append : (n : ℕ) (a b : List Bytes) → AllLength n a → AllLength n b → AllLength n (a ++ b)
AllLength-append n [] b ha hb = hb
AllLength-append n (s ∷ a) b ha hb = (ha.0, AllLength-append n a b ha.1 hb)

AllLength-replicate : (n p : ℕ) (s : Bytes) → length s ≡ n → AllLength n (replicate p s)
AllLength-replicate n zero s h = tt
AllLength-replicate n (suc p) s h = (h, AllLength-replicate n p s h)

AllLength-data_shards_from :
    (prefixed : Bytes) (size i k : ℕ) → AllLength size (data_shards_from prefixed size i k)
unfolding data_shards_from
AllLength-data_shards_from prefixed size i zero = tt
AllLength-data_shards_from prefixed size i (suc k) =
    (length-data_shard prefixed size i, AllLength-data_shards_from prefixed size (suc i) k)

length-data_shards_from :
    (prefixed : Bytes) (size i k : ℕ) → length (data_shards_from prefixed size i k) ≡ k
unfolding data_shards_from
length-data_shards_from prefixed size i zero = refl
length-data_shards_from prefixed size i (suc k) =
    ap suc (length-data_shards_from prefixed size (suc i) k)

-- Data that can be addressed is encoded for any positive number of data shards and any number of
-- parity shards: into as many shards, all of one length; and the data shards decode to the data,
-- whatever stands after them in place of the parity shards.
pub decode-encode_erasure :
    (bytes : Bytes) (data_shards parity more_parity : ℕ) (more : List Bytes)
    → Fits bytes
    → 0 < data_shards
    → (shards : List Bytes) × (encode_erasure bytes data_shards parity ≡ ok shards)
      × (length shards ≡ data_shards + parity)
      × AllLength (div_ceil (8 + length bytes) data_shards) shards
      × (decode_erasure (take data_shards shards ++ more) data_shards more_parity ≡ ok bytes)
unfolding encode_erasure
decode-encode_erasure bytes zero parity q more fits pos = elim pos [ ]
decode-encode_erasure bytes (suc n) parity q more fits pos =
    let prefixed = with_prefix bytes in
    let size = div_ceil (length prefixed) (suc n) in
    let front = data_shards_from prefixed size 0 (suc n) in
    let back = replicate parity (replicate {A = ℕ} size 0) in
    let count : length front ≡ suc n = length-data_shards_from prefixed size 0 (suc n) in
    let cut : take (suc n) (front ++ back) ≡ front =
      subst (λ k. take k (front ++ back) ≡ front) count (take-append front back) in
    (
      front ++ back,
      refl,
      rw (length-append front back, count, length-replicate parity (replicate {A = ℕ} size 0)),
      rw (← length-with_prefix bytes) (
          AllLength-append size front back (AllLength-data_shards_from prefixed size 0 (suc n))
            (AllLength-replicate size parity _ (length-replicate {A = ℕ} size 0))),
      rw cut (
          decode_erasure-joined (front ++ more) (suc n) q bytes _ fits
            (join_shards-encoded prefixed size (suc n) more (div_ceil_room (length prefixed) n))),
    )
