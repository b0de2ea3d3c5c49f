-- ===== src/External/SledModel.antt =====
-- A database that meets the laws of `Sled`: a list of cells, read off into sorted trees.
use all4one.Prelude.{
  Bool-cases, inl, inr, any, ◌||◌, ◌≡◌, refl, true, ◌&&◌, none, some, List, [], ◌∷◌, Text, Bytes,
  get, lex_lt, lex_lt_trans, lex_lt_total, nat_eq, list_eq, list_beq_iff, arith, ◌==◌,
  if◌then◌else◌,
}
use all4one.External.Sled.{Sled, Before, Ascending, last_entry}

-- An insertion into a list with ascending keys; a key that is there gets the new value.
unfoldable pub sorted_insert : Bytes → Bytes → List (Bytes × Bytes) → List (Bytes × Bytes)
sorted_insert k v [] = (k, v) ∷ []
sorted_insert k v ((j, w) ∷ m) =
    if k == j
    then (k, v) ∷ m
    else if lex_lt k j
    then (k, v) ∷ (j, w) ∷ m
    else (j, w) ∷ sorted_insert k v m

Before-trans :
    (k j : Bytes) (m : List (Bytes × Bytes)) → lex_lt k j ≡ true → Before j m → Before k m
Before-trans k j [] h b = tt
Before-trans k j ((i, w) ∷ m) h b = (lex_lt_trans k j i h b.0, Before-trans k j m h b.1)

Before-sorted_insert :
    (i k v : Bytes) (m : List (Bytes × Bytes))
    → lex_lt i k ≡ true
    → Before i m
    → Before i (sorted_insert k v m)
unfolding sorted_insert
Before-sorted_insert i k v [] h b = (h, tt)
Before-sorted_insert i k v ((j, w) ∷ m) h b = elim (Bool-cases (k == j)) [
  | inl e ↦ rw e (h, b.1)
  | inr ne ↦ rw ne (elim (Bool-cases (lex_lt k j)) [
    | inl lt ↦ rw lt (h, b)
    | inr ge ↦ rw ge (b.0, Before-sorted_insert i k v m h b.1)
  ])
]

sorted_insert-Ascending :
    (k v : Bytes) (m : List (Bytes × Bytes)) → Ascending m → Ascending (sorted_insert k v m)
unfolding sorted_insert
sorted_insert-Ascending k v [] h = (tt, tt)
sorted_insert-Ascending k v ((j, w) ∷ m) h = elim (Bool-cases (k == j)) [
  | inl e ↦ rw e (rw (← (list_beq_iff k j).0 e) at h)
  | inr ne ↦ rw ne (elim (Bool-cases (lex_lt k j)) [
    | inl lt ↦ rw lt ((lt, Before-trans k j m lt h.0), h)
    | inr ge ↦ rw ge (
      Before-sorted_insert j k v m (lex_lt_total k j ne ge) h.0,
      sorted_insert-Ascending k v m h.1,
    )
  ])
]

get-sorted_insert :
    (k j v : Bytes) (m : List (Bytes × Bytes))
    → get j (sorted_insert k v m) ≡ (if k == j then some v else get j m)
unfolding sorted_insert get
get-sorted_insert k j v [] = refl
get-sorted_insert k j v ((i, w) ∷ m) =
    ground (arith, list_beq_iff k j, list_beq_iff k i, list_beq_iff i j, get-sorted_insert k j v m)

pub record Cell : Type 0 where
  pub tree : Text
  pub key : Bytes
  pub value : Bytes

pub record CellDb : Type 0 where
  pub names : List Text
  pub cells : List Cell

abbrev pub read_tree : Text → List Cell → List (Bytes × Bytes)
read_tree t [] = []
read_tree t (c ∷ cs) =
    let rest = read_tree t cs in if c.tree == t then sorted_insert c.key c.value rest else rest

abbrev pub without : Text → Bytes → List Cell → List Cell
without t k [] = []
without t k (c ∷ cs) =
    let rest = without t k cs in if c.tree == t && c.key == k then rest else c ∷ rest

pub read_tree-Ascending : (t : Text) (cs : List Cell) → Ascending (read_tree t cs)
read_tree-Ascending t [] = tt
read_tree-Ascending t (c ∷ cs) = elim (Bool-cases (c.tree == t)) [
  | inl e ↦ rw e (sorted_insert-Ascending c.key c.value _ (read_tree-Ascending t cs))
  | inr ne ↦ rw ne (read_tree-Ascending t cs)
]

pub get-read_tree_put :
    (t u : Text) (k j v : Bytes) (cs : List Cell)
    → get j (read_tree u (record { tree = t; key = k; value = v } ∷ cs))
      ≡ (if t == u && k == j then some v else get j (read_tree u cs))
get-read_tree_put t u k j v cs = ground (arith, get-sorted_insert k j v (read_tree u cs))

pub get-read_tree-without :
    (t u : Text) (k j : Bytes) (cs : List Cell)
    → get j (read_tree u (without t k cs))
      ≡ (if t == u && k == j then none else get j (read_tree u cs))
unfolding get
get-read_tree-without t u k j [] = ground arith
get-read_tree-without t u k j (c ∷ cs) = ground (
  arith,
  get-read_tree-without t u k j cs,
  get-sorted_insert c.key j c.value (read_tree u cs),
  get-sorted_insert c.key j c.value (read_tree u (without t k cs)),
  list_beq_iff c.tree t,
  list_beq_iff c.tree u,
  list_beq_iff t u,
  list_beq_iff c.key k,
  list_beq_iff c.key j,
  list_beq_iff k j,
)

pub get-nil : (k : Bytes) → get {V = Bytes} k [] ≡ none
unfolding get
get-nil k = refl

pub names_step :
    (t u : Text) (names : List Text)
    → any (λ n. n == u) (t ∷ names) ≡ (t == u || any (λ n. n == u) names)
names_step t u names = ground arith

abbrev pub cell_db : Sled
cell_db = record {
  Db = CellDb;
  empty = record { names = []; cells = [] };
  open_tree = λ t d. record { names = t ∷ d.names; cells = d.cells };
  tree_names = λ d. d.names;
  iter = λ t d. read_tree t d.cells;
  tree_get = λ t k d. get k (read_tree t d.cells);
  tree_insert = λ t k v d. record {
    names = d.names;
    cells = record { tree = t; key = k; value = v } ∷ d.cells;
  };
  tree_remove = λ t k d. record { names = d.names; cells = without t k d.cells };
  tree_last = λ t d. last_entry (read_tree t d.cells);
  iter-Ascending = λ t d. read_tree-Ascending t d.cells;
  get_iter = λ t k d. refl;
  last_iter = λ t d. refl;
  get-empty = λ t k. get-nil k;
  get-open_tree = λ t u k d. refl;
  names-open_tree = λ t u d. names_step t u d.names;
  names-tree_insert = λ t k v d. refl;
  get-tree_insert = λ t u k j v d. get-read_tree_put t u k j v d.cells;
  get-tree_remove = λ t u k j d. get-read_tree-without t u k j d.cells;
}
