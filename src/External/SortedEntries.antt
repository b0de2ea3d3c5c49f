-- ===== src/External/SortedEntries.antt =====
-- Lists of entries with strictly ascending keys, as the iteration of a sled tree gives them.
use all4one.Prelude.{
  ◌≡◌, refl, Bool-cases, inl, inr, some, none, List, [], ◌∷◌, Bytes, get, lex_lt_irrefl, nat_eq,
  list_eq, list_beq_iff, beq_refl, ◌==◌, arith,
}
use all4one.External.Sled.{Before, Ascending}

-- A key before all others is not among them.
pub get-Before : (k : Bytes) (m : List (Bytes × Bytes)) → Before k m → get k m ≡ none
unfolding get
get-Before k [] b = refl
get-Before k ((j, v) ∷ m) b = ground (arith, get-Before k m, list_beq_iff j k, lex_lt_irrefl k)

-- A statement about every entry of the list.
abbrev pub AllEntries : (Bytes → Bytes → Type 0) → List (Bytes × Bytes) → Type 0
AllEntries P [] = Unit
AllEntries P ((k, v) ∷ m) = P k v × AllEntries P m

-- What holds of every pair that a lookup finds holds of every entry.
pub AllEntries-get :
    (P : Bytes → Bytes → Type 0) (m : List (Bytes × Bytes))
    → Ascending m
    → ((k v : Bytes) → get k m ≡ some v → P k v)
    → AllEntries P m
unfolding get
AllEntries-get P [] asc h = tt
AllEntries-get P ((k, v) ∷ m) asc h = (h k v (rw (beq_refl k)), AllEntries-get P m asc.1 later)
  where
    later : (j w : Bytes) → get j m ≡ some w → P j w
    later j w found = h j w (elim (Bool-cases (k == j)) [
      | inl e ↦ cc (get-Before k m asc.0, (list_beq_iff k j).0 e)
      | inr ne ↦ rw ne found
    ])

pub AllEntries-map :
    (P Q : Bytes → Bytes → Type 0)
    → ((k v : Bytes) → P k v → Q k v)
    → (m : List (Bytes × Bytes)) → AllEntries P m
    → AllEntries Q m
AllEntries-map P Q f [] h = tt
AllEntries-map P Q f ((k, v) ∷ m) h = (f k v h.0, AllEntries-map P Q f m h.1)
