-- ===== src/Storage/Erasure.antt =====
-- agent/src/storage/chunks.rs: `encode_erasure` and `decode_erasure`, on a machine with words of 64
-- bits. `panic` is a division by zero, an overflow or a slice out of range.
pub mod Shards
pub mod RoundTrip
pub mod Prefix
use all4one.Prelude.{
  ℕ, zero, suc, ◌+◌, ◌-◌, ◌*◌, ◌/◌, ◌^◌, List, [], ◌∷◌, ◌++◌, Bytes, length, take, drop, replicate,
  le_bytes, from_le_bytes, min, ltb, leb, Result, ok, err, panic, nat_eq, ◌==◌, if◌then◌else◌,
}

pub data ErasureError : Type 0 where
  too_short prefix_exceeds : ErasureError

-- The length of the data, in eight bytes, before the data.
unfoldable pub with_prefix : Bytes → Bytes
with_prefix bytes = le_bytes 8 (length bytes) ++ bytes

-- `usize::div_ceil`, for a divisor that is not 0.
abbrev pub div_ceil : ℕ → ℕ → ℕ
div_ceil a b = (a + b - 1) / b

-- `shard[..n].copy_from_slice(piece)`, where `n` is the length of the piece.
abbrev pub copy_to_front : Bytes → Bytes → Bytes
copy_to_front piece shard = piece ++ drop (length piece) shard

-- The i-th data shard: the bytes from `i * shard_size` on, as far as there are any, then zeros.
unfoldable pub data_shard : Bytes → ℕ → ℕ → Bytes
data_shard prefixed shard_size i =
    let start = i * shard_size in
    let end = min (start + shard_size) (length prefixed) in
    let shard = replicate shard_size 0 in
    if ltb start end then copy_to_front (take (end - start) (drop start prefixed)) shard else shard

-- The loop `for i in 0..data_shards`, with the number of rounds that are left.
unfoldable pub data_shards_from : Bytes → ℕ → ℕ → ℕ → List Bytes
data_shards_from prefixed shard_size i zero = []
data_shards_from prefixed shard_size i (suc left) =
    data_shard prefixed shard_size i ∷ data_shards_from prefixed shard_size (suc i) left

unfoldable pub encode_erasure : Bytes → ℕ → ℕ → Result ErasureError (List Bytes)
encode_erasure bytes zero parity_shards = panic
encode_erasure bytes (suc n) parity_shards =
    let prefixed = with_prefix bytes in
    let shard_size = div_ceil (length prefixed) (suc n) in
    ok (
      data_shards_from prefixed shard_size 0 (suc n)
      ++ replicate parity_shards (replicate shard_size 0))

-- The loop that joins the first `data_shards` of the shards that there are.
unfoldable pub join_shards : ℕ → List Bytes → Bytes
join_shards zero shards = []
join_shards (suc n) [] = []
join_shards (suc n) (s ∷ shards) = s ++ join_shards n shards

unfoldable pub decode_erasure : List Bytes → ℕ → ℕ → Result ErasureError Bytes
decode_erasure shards data_shards parity_shards =
    let combined = join_shards data_shards shards in
    let data_len = from_le_bytes (take 8 combined) in
    if ltb (length combined) 8
    then err too_short
    else if leb (2 ^ 64) (8 + data_len)
    then panic
    else if ltb (length combined) (8 + data_len)
    then err prefix_exceeds
    else ok (take data_len (drop 8 combined))
