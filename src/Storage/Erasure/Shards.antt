-- ===== src/Storage/Erasure/Shards.antt =====
-- The shards that `encode_erasure` of agent/src/storage/chunks.rs makes, and what they join to.
use all4one.Prelude.{
  ℕ, zero, suc, ◌+◌, ◌-◌, ◌*◌, ◌≤◌, ◌≡◌, refl, sym, ap, ◌∙◌, List, [], ◌++◌, Bytes, length, take,
  drop, replicate, min, ltb, ltb→lt, take-min, take-add, drop-drop, take-length, eq-nil,
  drop-append-replicate, take-append-replicate, length-append, length-take, length-drop,
  length-replicate, Bool-cases, inl, inr, arith,
}
use mathlib.Core.Path.{ap₂}
use native.Mathlib.Nat.{div-add-mod, mod-lt}
use all4one.Storage.Erasure.{copy_to_front, data_shard, data_shards_from, join_shards, div_ceil}

-- A data shard is the slice of the bytes that starts at `i * shard_size`, filled up with zeros.
data_shard_lem :
    (prefixed : Bytes) (size i : ℕ)
    → data_shard prefixed size i
      ≡ copy_to_front (take size (drop (i * size) prefixed)) (replicate size 0)
unfolding data_shard
data_shard_lem prefixed size i =
    let start = i * size in
    let end = min (start + size) (length prefixed) in
    let rest = drop start prefixed in
    elim (Bool-cases (ltb start end)) [
      | inl some_left ↦
          let cut : end - start ≡ min size (length rest) =
            omega (arith, ltb→lt start end some_left, length-drop start prefixed) in
          rw (some_left, cut, take-min size rest)
      | inr none_left ↦ rw none_left (
          sym (
            nothing_left rest (
              eq-nil (take size rest)
                (ground (arith, length-take size rest, length-drop start prefixed)))))
    ]
  where
    nothing_left :
        (rest : Bytes)
        → take size rest ≡ []
        → copy_to_front (take size rest) (replicate size 0) ≡ replicate size 0
    nothing_left rest e = rw e

-- The shards from the i-th on join to the bytes from there on, with zeros after the last byte.
join_shards-data_shards_from :
    (prefixed : Bytes) (size i k z : ℕ) (more : List Bytes)
    → i * size + k * size ≤ length prefixed + z
    → join_shards k (data_shards_from prefixed size i k ++ more)
      ≡ take (k * size) (drop (i * size) (prefixed ++ replicate z 0))
unfolding join_shards data_shards_from
join_shards-data_shards_from prefixed size i zero z more h =
    let e : zero * size ≡ 0 = omega arith in rw e refl
join_shards-data_shards_from prefixed size i (suc k) z more h =
    let padded = prefixed ++ replicate z 0 in
    let rest = drop (i * size) prefixed in
    let room : size ≤ length rest + (z - (i * size - length prefixed)) =
      omega (arith, length-drop (i * size) prefixed) in
    let head : data_shard prefixed size i ≡ take size (drop (i * size) padded) =
      data_shard_lem prefixed size i
      ∙ sym (take-append-replicate size (z - (i * size - length prefixed)) 0 rest room)
      ∙ ap (take size) (sym (drop-append-replicate (i * size) z 0 prefixed)) in
    let next : i * size + size ≡ suc i * size = omega arith in
    let whole : size + k * size ≡ suc k * size = omega arith in
    let tail : join_shards k (data_shards_from prefixed size (suc i) k ++ more)
        ≡ take (k * size) (drop size (drop (i * size) padded)) =
      join_shards-data_shards_from prefixed size (suc i) k z more (omega arith)
      ∙ ap (λ n. take (k * size) (drop n padded)) (sym next)
      ∙ ap (take (k * size)) (sym (drop-drop size (i * size) padded)) in
    ap₂ (λ a b. a ++ b) head tail
    ∙ take-add size (k * size) (drop (i * size) padded)
    ∙ ap (λ n. take n (drop (i * size) padded)) whole

-- All data shards together are the bytes, with zeros up to a whole number of shards.
pub join_shards-encoded :
    (prefixed : Bytes) (size k : ℕ) (more : List Bytes)
    → length prefixed ≤ k * size
    → join_shards k (data_shards_from prefixed size 0 k ++ more)
      ≡ prefixed ++ replicate (k * size - length prefixed) 0
join_shards-encoded prefixed size k more h =
    let z = k * size - length prefixed in
    let at_start : 0 * size ≡ 0 = omega arith in
    join_shards-data_shards_from prefixed size 0 k z more (omega arith)
    ∙ rw at_start (
        take-length (k * size) (prefixed ++ replicate z 0)
          (omega (arith, length-append prefixed (replicate z 0), length-replicate {A = ℕ} z 0)))

-- The size that `div_ceil` chooses leaves room for every byte.
pub div_ceil_room : (a n : ℕ) → a ≤ suc n * div_ceil a (suc n)
div_ceil_room a n =
    omega
      (arith, div-add-mod (a + suc n - 1) (suc n), mod-lt (a + suc n - 1) {m = suc n} (omega arith))

length-copy_to_front :
    (piece shard : Bytes)
    → length piece ≤ length shard
    → length (copy_to_front piece shard) ≡ length shard
length-copy_to_front piece shard h =
    omega (arith, length-append piece (drop (length piece) shard), length-drop (length piece) shard)

pub length-data_shard : (prefixed : Bytes) (size i : ℕ) → length (data_shard prefixed size i) ≡ size
length-data_shard prefixed size i =
    let piece = take size (drop (i * size) prefixed) in
    ap length (data_shard_lem prefixed size i)
    ∙ length-copy_to_front piece (replicate size 0) (
        omega (arith, length-take size (drop (i * size) prefixed), length-replicate {A = ℕ} size 0))
    ∙ length-replicate size 0
