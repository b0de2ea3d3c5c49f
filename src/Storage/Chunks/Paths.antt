-- ===== src/Storage/Chunks/Paths.antt =====
-- The paths of the shards of one object (agent/src/storage/chunks.rs) are all different.
use all4one.Prelude.{
  ℕ, zero, suc, ◌<◌, ◌≡◌, refl, sym, Bool, true, false, not, ◌&&◌, [], ◌∷◌, ◌++◌, append_assoc,
  Text, codes, decimal, nat_beq, nat_eq, list_eq, list_beq, beq_refl, arith,
}
use all4one.Storage.Chunks.{join_path, chunks_dir, shard_path, meta_path}

-- No policy makes more than twelve shards.
abbrev pub max_shards : ℕ
max_shards = 12

every_below : (ℕ → Bool) → ℕ → Bool
every_below p zero = true
every_below p (suc n) = every_below p n && p n

every_below-at : (p : ℕ → Bool) (i n : ℕ) → i < n → every_below p n ≡ true → p i ≡ true
unfolding every_below
every_below-at p i zero lt h = absurd (omega arith)
every_below-at p i (suc n) lt h = ground (arith, every_below-at p i n)

abbrev same : Bool → Bool → Bool
same true b = b
same false b = not b

same_eq : (a b : Bool) → same a b ≡ true → a ≡ b
same_eq true true h = refl
same_eq true false h = sym h
same_eq false true h = h
same_eq false false h = refl

-- Of two indices below the maximum: their texts are equal if they are, and with `.meta` never.
abbrev distinct : ℕ → ℕ → Bool
distinct i j =
    same (list_beq (decimal i) (decimal j)) (nat_beq i j)
    && not (list_beq (decimal i ++ codes ".meta") (decimal j))

distinct_table : every_below (λ i. every_below (distinct i) max_shards) max_shards ≡ true
unfolding every_below decimal
distinct_table = refl

decimal_distinct : (i j : ℕ) → i < max_shards → j < max_shards → distinct i j ≡ true
decimal_distinct i j hi hj =
    every_below-at (distinct i) j max_shards hj
      (every_below-at (λ k. every_below (distinct k) max_shards) i max_shards hi distinct_table)

-- A common front does not matter.
list_beq-append : (p a b : Text) → list_beq (p ++ a) (p ++ b) ≡ list_beq a b
list_beq-append [] a b = refl
list_beq-append (c ∷ p) a b = ground (arith, list_beq-append p a b, beq_refl c)

module _ (bucket id : Text) where
  base : Text
  base = join_path (chunks_dir bucket) (id ++ codes "-shard-")

  shard_path_lem : (i : ℕ) → shard_path bucket id i ≡ base ++ decimal i
  unfolding shard_path base
  shard_path_lem i = simp append_assoc

  meta_path_lem : (i : ℕ) → meta_path bucket id i ≡ base ++ (decimal i ++ codes ".meta")
  unfolding meta_path
  meta_path_lem i = rw shard_path_lem (append_assoc base (decimal i) (codes ".meta"))

  pub shard_path_eq :
      (i j : ℕ)
      → i < max_shards
      → j < max_shards
      → list_beq (shard_path bucket id i) (shard_path bucket id j) ≡ nat_beq i j
  shard_path_eq i j hi hj =
      rw (shard_path_lem i, shard_path_lem j, list_beq-append base (decimal i) (decimal j))
        (same_eq _ _ (
          first _ (not (list_beq (decimal i ++ codes ".meta") (decimal j)))
            (decimal_distinct i j hi hj)))
    where
      first : (a b : Bool) → (a && b) ≡ true → a ≡ true
      first a b h = ground arith

  pub meta_path_ne :
      (i j : ℕ)
      → i < max_shards
      → j < max_shards
      → list_beq (meta_path bucket id i) (shard_path bucket id j) ≡ false
  meta_path_ne i j hi hj =
      rw
        (
          meta_path_lem i,
          shard_path_lem j,
          list_beq-append base (decimal i ++ codes ".meta") (decimal j),
        )
        (second (same (list_beq (decimal i) (decimal j)) (nat_beq i j)) _
          (decimal_distinct i j hi hj))
    where
      second : (a b : Bool) → (a && not b) ≡ true → b ≡ false
      second a b h = ground arith
