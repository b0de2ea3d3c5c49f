-- ===== src/External/Sled.antt =====
-- sled: a database of named trees, each an ordered map from byte strings to byte strings. A handle
-- shares the database, so an operation takes the name of its tree. Input and output errors of the
-- disk are left out: an operation always succeeds.
use all4one.Prelude.{
  ◌≡◌, true, ◌&&◌, ◌||◌, any, Option, none, some, List, [], ◌∷◌, Text, Bytes, get, lex_lt, nat_eq,
  list_eq, ◌==◌, if◌then◌else◌,
}

-- Does the key come before every key of the list?
abbrev pub Before : Bytes → List (Bytes × Bytes) → Type 0
Before k [] = Unit
Before k ((j, v) ∷ m) = (lex_lt k j ≡ true) × Before k m

-- The keys ascend strictly.
abbrev pub Ascending : List (Bytes × Bytes) → Type 0
Ascending [] = Unit
Ascending ((k, v) ∷ m) = Before k m × Ascending m

abbrev pub last_entry : List (Bytes × Bytes) → Option (Bytes × Bytes)
last_entry [] = none
last_entry (p ∷ []) = some p
last_entry (p ∷ q ∷ m) = last_entry (q ∷ m)

pub record Sled : Type 1 where
  pub Db : Type 0
  pub empty : Db
  -- `open_tree` creates the tree that is not there.
  pub open_tree : Text → Db → Db
  pub tree_names : Db → List Text
  -- `tree.iter()`, in the order of the keys; `get`, `insert`, `remove` and `last` of a tree.
  pub iter : Text → Db → List (Bytes × Bytes)
  pub tree_get : Text → Bytes → Db → Option Bytes
  pub tree_insert : Text → Bytes → Bytes → Db → Db
  pub tree_remove : Text → Bytes → Db → Db
  pub tree_last : Text → Db → Option (Bytes × Bytes)
  pub iter-Ascending : (t : Text) (d : Db) → Ascending (iter t d)
  pub get_iter : (t : Text) (k : Bytes) (d : Db) → tree_get t k d ≡ get k (iter t d)
  pub last_iter : (t : Text) (d : Db) → tree_last t d ≡ last_entry (iter t d)
  pub get-empty : (t : Text) (k : Bytes) → tree_get t k empty ≡ none
  pub get-open_tree :
      (t u : Text) (k : Bytes) (d : Db) → tree_get u k (open_tree t d) ≡ tree_get u k d
  pub names-open_tree :
      (t u : Text) (d : Db)
      → any (λ n. n == u) (tree_names (open_tree t d))
        ≡ (t == u || any (λ n. n == u) (tree_names d))
  pub names-tree_insert :
      (t : Text) (k v : Bytes) (d : Db) → tree_names (tree_insert t k v d) ≡ tree_names d
  pub get-tree_insert :
      (t u : Text) (k j v : Bytes) (d : Db)
      → tree_get u j (tree_insert t k v d) ≡ (if t == u && k == j then some v else tree_get u j d)
  pub get-tree_remove :
      (t u : Text) (k j : Bytes) (d : Db)
      → tree_get u j (tree_remove t k d) ≡ (if t == u && k == j then none else tree_get u j d)
