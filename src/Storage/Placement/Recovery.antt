-- ===== src/Storage/Placement/Recovery.antt =====
-- What agent/src/storage/placement.rs chooses, and what it takes to recover an object.
use native.Mathlib.Nat.{mod-eq_of_lt}
use all4one.Prelude.{
  ℕ, zero, suc, ◌%◌, ◌≤◌, ◌<◌, ◌≡◌, ◌≢◌, refl, sym, ap, ◌∙◌, Bool, false, some, List, [], ◌∷◌, ◌++◌,
  Text, length, map, take, get_elem?, keep, any, min, leb, length-append, take-nil, take-min, subst,
  lt→leb_false, length-take, Bool-cases, inl, inr, arith,
}
use all4one.Common.{Uuid}
use all4one.Storage.Policy.{StoragePolicy, hot, warm, cold, archive, replicas, put_layout}
use all4one.Storage.Placement.{
  NodeCapacity, place_from, determine_placement, survives, is_recoverable,
}

abbrev pub node_ids : List NodeCapacity → List Uuid
node_ids = map (λ n. n.node_id)

get_elem?-append :
    (a b : List NodeCapacity) (n : NodeCapacity) → get_elem? (a ++ n ∷ b) (length a) ≡ some n
get_elem?-append [] b n = refl
get_elem?-append (x ∷ a) b n = get_elem?-append a b n

append_one : (a b : List NodeCapacity) (n : NodeCapacity) → a ++ n ∷ b ≡ (a ++ n ∷ []) ++ b
append_one [] b n = refl
append_one (x ∷ a) b n = rw (append_one a b n) refl

-- From the i-th node on, the nodes are chosen one after the other.
place_from_lem :
    (a b : List NodeCapacity) (left : ℕ)
    → left ≤ length b
    → place_from (a ++ b) (length a) left ≡ some (node_ids (take left b))
unfolding place_from
place_from_lem a b zero h = refl
place_from_lem a [] (suc left) h = absurd (omega arith)
place_from_lem a (n ∷ b) (suc left) h =
    let inside : length a < length (a ++ n ∷ b) = omega (arith, length-append a (n ∷ b)) in
    let here : get_elem? (a ++ n ∷ b) (length a % length (a ++ n ∷ b)) ≡ some n =
      rw (mod-eq_of_lt inside) (get_elem?-append a b n) in
    let next : length (a ++ n ∷ []) ≡ suc (length a) = omega (arith, length-append a (n ∷ [])) in
    let rest : place_from (a ++ n ∷ b) (suc (length a)) left ≡ some (node_ids (take left b)) =
      subst (λ k. place_from (a ++ n ∷ b) k left ≡ some (node_ids (take left b))) next
        (subst (λ l. place_from l (length (a ++ n ∷ [])) left ≡ some (node_ids (take left b)))
          (sym (append_one a b n)) (place_from_lem (a ++ n ∷ []) b left (omega arith))) in
    rw (place_from, here, rest) refl

-- The nodes that are chosen are the first ones that are available, as many as the policy has replicas,
-- or all where there are fewer; the index is never out of range.
pub determine_placement_lem :
    (chunk_id : Text) (chunk_size : ℕ) (p : StoragePolicy) (nodes : List NodeCapacity)
    → determine_placement chunk_id chunk_size p nodes ≡ some (node_ids (take (replicas p) nodes))
unfolding determine_placement
determine_placement_lem chunk_id chunk_size p [] =
    rw (take-nil {A = NodeCapacity} (replicas p)) refl
determine_placement_lem chunk_id chunk_size p (n ∷ nodes) =
    place_from_lem [] (n ∷ nodes) (min (replicas p) (length (n ∷ nodes))) (omega arith)
    ∙ ap (λ l. some (node_ids l)) (take-min (replicas p) (n ∷ nodes))

any_count : (q : Uuid → Bool) (ids : List Uuid) → any q ids ≡ leb 1 (length (keep q ids))
any_count q [] = refl
any_count q (i ∷ ids) = elim (Bool-cases (q i)) [
  | inl good ↦ rw (any, keep, good) (ground arith)
  | inr bad ↦ rw (any, keep, bad) (any_count q ids)
]

-- An object is recoverable just if at least as many nodes that hold it are left as its policy has
-- data shards.
pub is_recoverable_lem :
    (placement : List Uuid) (p : StoragePolicy) (failed : List Uuid)
    → is_recoverable placement p failed
      ≡ leb (put_layout p).0 (length (keep (survives failed) placement))
unfolding is_recoverable put_layout
is_recoverable_lem placement hot failed = any_count (survives failed) placement
is_recoverable_lem placement warm failed = refl
is_recoverable_lem placement cold failed = refl
is_recoverable_lem placement archive failed = refl

length-keep : (q : Uuid → Bool) (ids : List Uuid) → length (keep q ids) ≤ length ids
length-keep q [] = omega arith
length-keep q (i ∷ ids) = ground (arith, length-keep q ids)

length-node_ids : (nodes : List NodeCapacity) → length (node_ids nodes) ≡ length nodes
length-node_ids [] = refl
length-node_ids (n ∷ nodes) = ap suc (length-node_ids nodes)

tier_numbers : (p : StoragePolicy) → p ≢ hot → (replicas p ≤ 1) × (4 ≤ (put_layout p).0)
unfolding replicas put_layout
tier_numbers hot h = absurd (h refl)
tier_numbers warm h = (omega arith, omega arith)
tier_numbers cold h = (omega arith, omega arith)
tier_numbers archive h = (omega arith, omega arith)

-- The nodes that are chosen for an object of a tier with erasure coding are too few for it: it counts
-- as not recoverable, even where no node has failed.
pub placement_unrecoverable :
    (chunk_id : Text) (chunk_size : ℕ) (p : StoragePolicy) (nodes : List NodeCapacity)
    (ids failed : List Uuid)
    → p ≢ hot
    → determine_placement chunk_id chunk_size p nodes ≡ some ids
    → is_recoverable ids p failed ≡ false
placement_unrecoverable chunk_id chunk_size p nodes ids failed tier placed =
    let (one, several) = tier_numbers p tier in
    let chosen : node_ids (take (replicas p) nodes) ≡ ids =
      ground (arith, determine_placement_lem chunk_id chunk_size p nodes) in
    let few : length ids ≤ 1 =
      subst (λ l. length l ≤ 1) chosen
        (omega
          (arith, length-node_ids (take (replicas p) nodes), length-take (replicas p) nodes)) in
    is_recoverable_lem ids p failed
    ∙ lt→leb_false (put_layout p).0 _ (omega (arith, length-keep (survives failed) ids))
