-- ===== src/Storage/Erasure/Prefix.antt =====
-- `decode_erasure` of agent/src/storage/chunks.rs on any length prefix, written by it or not.
use all4one.Prelude.{
  ℕ, ◌+◌, ◌^◌, ◌<◌, ◌≡◌, subst, List, ◌++◌, Bytes, length, take, drop, take-append, drop-append,
  length-append, length-le_bytes, le_bytes, from_le_bytes-le_bytes, ltb, leb, ok, err, panic, arith,
  if◌then◌else◌,
}
use all4one.Storage.Erasure.{prefix_exceeds, join_shards, decode_erasure}
use all4one.Storage.Erasure.RoundTrip.{not-short}

-- Where the joined data shards are a prefix of eight bytes for a number `m` below 2 ^ 64 and some
-- bytes after it, decoding panics if `m` is within eight of 2 ^ 64, fails if there are fewer than
-- `m` bytes, and otherwise gives the first `m` bytes.
pub decode_erasure_prefix :
    (shards : List Bytes) (n parity m : ℕ) (rest : Bytes)
    → m < 2 ^ 64
    → join_shards n shards ≡ le_bytes 8 m ++ rest
    → decode_erasure shards n parity ≡ (
        if leb (2 ^ 64) (8 + m)
        then panic
        else if ltb (length rest) m
        then err prefix_exceeds
        else ok (take m rest))
unfolding decode_erasure
decode_erasure_prefix shards n parity m rest fits joined =
    let pre = le_bytes 8 m in
    let eight = length-le_bytes 8 m in
    let len : length (pre ++ rest) ≡ 8 + length rest =
      omega (arith, length-append pre rest, eight) in
    let front : take 8 (pre ++ rest) ≡ pre =
      subst (λ k. take k (pre ++ rest) ≡ pre) eight (take-append pre rest) in
    let back : drop 8 (pre ++ rest) ≡ rest =
      subst (λ k. drop k (pre ++ rest) ≡ rest) eight (drop-append pre rest) in
    rw (
      joined,
      front,
      back,
      from_le_bytes-le_bytes 8 m (omega arith),
      not-short (length (pre ++ rest)) 8 (omega (arith, len)),
      len,
      shifted (length rest) m,
    )
  where
    shifted : (a b : ℕ) → ltb (8 + a) (8 + b) ≡ ltb a b
    shifted a b = ground arith
