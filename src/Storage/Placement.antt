-- ===== src/Storage/Placement.antt =====
-- agent/src/storage/placement.rs: which nodes hold an object, and whether it can be recovered.
pub mod Recovery
use all4one.Prelude.{
  ℕ, zero, suc, ◌%◌, Bool, not, Option, none, some, List, [], ◌∷◌, Text, length, get_elem?, keep,
  any, min, leb, nat_eq, ◌==◌,
}
use all4one.Common.{Uuid}
use all4one.Storage.Policy.{StoragePolicy, hot, warm, cold, archive, replicas}

pub record NodeCapacity : Type 0 where
  pub node_id : Uuid
  pub available_bytes : ℕ
  pub used_bytes : ℕ

-- The loop over the indices from `i` on; `None` is an index out of range.
unfoldable pub place_from : List NodeCapacity → (i left : ℕ) → Option (List Uuid)
place_from nodes i zero = some []
place_from nodes i (suc left) =
    let rest = place_from nodes (suc i) left in
    elim (get_elem? nodes (i % length nodes)) [
      | none ↦ none
      | some n ↦ elim rest [ none ↦ none | some ids ↦ some (n.node_id ∷ ids) ]
    ]

unfoldable pub determine_placement :
    (chunk_id : Text) (chunk_size : ℕ) → StoragePolicy → List NodeCapacity → Option (List Uuid)
determine_placement chunk_id chunk_size p [] = some []
determine_placement chunk_id chunk_size p (n ∷ nodes) =
    place_from (n ∷ nodes) 0 (min (replicas p) (length (n ∷ nodes)))

-- `!failed_nodes.contains(n)`.
unfoldable pub survives : List Uuid → Uuid → Bool
survives failed n = not (any (λ f. f == n) failed)

unfoldable pub is_recoverable : List Uuid → StoragePolicy → List Uuid → Bool
is_recoverable placement hot failed = any (survives failed) placement
is_recoverable placement warm failed = leb 4 (length (keep (survives failed) placement))
is_recoverable placement cold failed = leb 6 (length (keep (survives failed) placement))
is_recoverable placement archive failed = leb 8 (length (keep (survives failed) placement))
