-- ===== src/Storage/Index/Buckets.antt =====
-- The buckets of agent/src/storage/index.rs.
use all4one.Prelude.{
  ◌≡◌, refl, sym, ◌∙◌, ap, Bool, true, false, ◌||◌, List, [], ◌∷◌, Text, codes, any, none, some,
  strip_prefix, strip_prefix-append, strip_prefix-eq_some, nat_eq, list_eq, list_beq, list_beq_iff,
  Bool-cases, beq_refl, ◌==◌, Option-cases, inl, inr, arith,
}
use all4one.Storage.Index.{
  IndexDeps, bucket_tree, bucket_names, get_object, bucket_exists, create_bucket, list_buckets,
}

not_tree :
    (bucket name : Text)
    → strip_prefix (codes "bucket:") name ≡ none
    → list_beq name (bucket_tree bucket) ≡ false
not_tree bucket name e = elim (Bool-cases (list_beq name (bucket_tree bucket))) [
  | inl same ↦ cc (
    (list_beq_iff name (bucket_tree bucket)).0 same,
    e,
    strip_prefix-append (codes "bucket:") bucket,
  )
  | inr other ↦ other
]

is_tree :
    (bucket name b : Text)
    → strip_prefix (codes "bucket:") name ≡ some b
    → list_beq name (bucket_tree bucket) ≡ list_beq b bucket
is_tree bucket name b e = rw (strip_prefix-eq_some (codes "bucket:") name b e)

-- A bucket is listed exactly if its tree is there.
any-bucket_names :
    (bucket : Text) (names : List Text)
    → any (λ b. b == bucket) (bucket_names names) ≡ any (λ n. n == bucket_tree bucket) names
unfolding bucket_names
any-bucket_names bucket [] = refl
any-bucket_names bucket (name ∷ names) = elim (Option-cases (strip_prefix (codes "bucket:") name)) [
  | inl e ↦ ground (arith, e, not_tree bucket name e, any-bucket_names bucket names)
  | inr (b, e) ↦ ground (arith, e, is_tree bucket name b e, any-bucket_names bucket names)
]

module _ (deps : IndexDeps) where
  open deps use {sled}
  open sled use {Db, tree_names, open_tree}

  abbrev pub is_listed : Text → Db → Bool
  is_listed bucket d = any (λ b. b == bucket) (list_buckets deps d)

  -- A bucket is listed after its creation, and every other bucket exactly if it was listed before.
  pub list_buckets-create_bucket :
      (bucket other : Text) (d : Db)
      → is_listed other (create_bucket deps bucket d) ≡ (bucket == other || is_listed other d)
  unfolding create_bucket list_buckets
  list_buckets-create_bucket bucket other d =
      any-bucket_names other (tree_names (open_tree (bucket_tree bucket) d))
      ∙ sled.names-open_tree (bucket_tree bucket) (bucket_tree other) d
      ∙ ap (λ x. list_beq bucket other || x) (sym (any-bucket_names other (tree_names d)))

  -- `bucket_exists` answers that a bucket exists whether or not it was there, and creates it; looking
  -- up an object creates its bucket too.
  pub bucket_exists_creates :
      (bucket key : Text) (d : Db)
      → ((bucket_exists deps bucket d).0 ≡ true)
        × (is_listed bucket (bucket_exists deps bucket d).1 ≡ true)
        × (is_listed bucket (get_object deps bucket key d).1 ≡ true)
  unfolding bucket_exists get_object list_buckets
  bucket_exists_creates bucket key d =
      let created : is_listed bucket (open_tree (bucket_tree bucket) d) ≡ true =
        any-bucket_names bucket (tree_names (open_tree (bucket_tree bucket) d))
        ∙ sled.names-open_tree (bucket_tree bucket) (bucket_tree bucket) d
        ∙ ap (λ x. x || any (λ n. n == bucket_tree bucket) (tree_names d)) (beq_refl bucket) in
      (refl, created, created)
