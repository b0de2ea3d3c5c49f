-- ===== src/Storage/Index/Listing.antt =====
-- `list_objects` of agent/src/storage/index.rs against its specification.
use all4one.Prelude.{
  ℕ, suc, ◌-◌, ◌≡◌, refl, sym, ◌∙◌, ap, false, Option, some, List, [], ◌∷◌, Text, Bytes, take,
  take-nil, leb→le, keep, leb, ok, Bool-cases, inl, inr, arith,
}
use all4one.Storage.Metadata.{ObjectMetadata}
use all4one.Storage.Index.{
  IndexDeps, bucket_tree, matches_prefix, max_or_default, list_items, list_objects,
}

module _ (deps : IndexDeps) where
  open deps use {sled, meta_json}
  open sled use {Db, open_tree, iter}

  -- The items hold, one for one, these metadata.
  abbrev pub Holds : List (Bytes × Bytes) → List ObjectMetadata → Type 0
  Holds [] [] = Unit
  Holds [] (m ∷ ms) = ⊥
  Holds (p ∷ items) [] = ⊥
  Holds (p ∷ items) (m ∷ ms) = (meta_json.from_slice p.1 ≡ some m) × Holds items ms

  one_more : (max found : ℕ) → leb max found ≡ false → max - found ≡ suc (max - suc found)
  one_more max found h = ground arith

  list_items_lem :
      (prefix : Option Text) (max found : ℕ) (items : List (Bytes × Bytes))
      (ms : List ObjectMetadata)
      → Holds items ms
      → list_items deps prefix max found items
        ≡ ok (take (max - found) (keep (matches_prefix prefix) ms))
  unfolding list_items
  list_items_lem prefix max found [] [] h = ap ok (sym (take-nil (max - found)))
  list_items_lem prefix max found [] (m ∷ ms) h = absurd h
  list_items_lem prefix max found (p ∷ items) [] h = absurd h
  list_items_lem prefix max found ((k, v) ∷ items) (m ∷ ms) h = elim (Bool-cases (leb max found)) [
    | inl full ↦
        let none_left : max - found ≡ 0 = omega (arith, leb→le max found full) in
        rw (full, none_left, list_items)
    | inr room ↦ elim (Bool-cases (matches_prefix prefix m)) [
      | inl match ↦
          rw
            (
              room,
              h.0,
              match,
              list_items_lem prefix max (suc found) items ms h.1,
              one_more max found room,
              list_items,
            )
            (rw (match, keep))
      | inr skip ↦
          rw (room, h.0, skip, list_items_lem prefix max found items ms h.1, list_items)
            (rw (skip, keep))
    ]
  ]

  -- Where the items of a bucket's tree hold metadata, in the order of their keys, `list_objects`
  -- gives the first `max_keys` of those whose key begins with the prefix: the first 1000 if no
  -- maximum is given, and those of any key if no prefix is given.
  list_objects_lem :
      (bucket : Text) (prefix : Option Text) (max_keys : Option ℕ) (ms : List ObjectMetadata)
      (d : Db)
      → Holds (iter (bucket_tree bucket) (open_tree (bucket_tree bucket) d)) ms
      → (list_objects deps bucket prefix max_keys d).0
        ≡ ok (take (max_or_default max_keys) (keep (matches_prefix prefix) ms))
  unfolding list_objects
  list_objects_lem bucket prefix max_keys ms d h =
      let max = max_or_default max_keys in
      let all_left : max - 0 ≡ max = omega arith in
      list_items_lem prefix max 0 (iter (bucket_tree bucket) (open_tree (bucket_tree bucket) d)) ms
        h
      ∙ rw all_left refl
