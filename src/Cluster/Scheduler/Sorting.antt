-- ===== src/Cluster/Scheduler/Sorting.antt =====
-- The order of the candidates in `pick_node` of agent/src/scheduler/mod.rs.
use all4one.Prelude.{
  ◌≡◌, ◌⊎◌, ◌↔◌, refl, ap, Bool, true, false, ◌&&◌, List, [], ◌∷◌, Text, keep, any, lex_lt,
  lex_lt_irrefl, lex_lt_trans, lex_lt_total, list_beq, list_beq_iff, Bool-cases, inl, inr, nat_eq,
  list_eq, arith,
}
use all4one.Common.{NodeId, NodeInfo}
use all4one.Cluster.Scheduler.{sort_key, insert_by_key, sort_by_key}

not_lt_trans : (a b c : Text) → lex_lt a b ≡ false → lex_lt b c ≡ false → lex_lt a c ≡ false
not_lt_trans a b c h k = elim (Bool-cases (lex_lt a c)) [
  | inr not_less ↦ not_less
  | inl less ↦ elim (Bool-cases (list_beq a b)) [
    | inl same ↦ rw ((list_beq_iff a b).0 same) k
    | inr other ↦
        let both = lex_lt_trans b a c (lex_lt_total a b other h) less in ground (arith, both)
  ]
]

pub neither : (a b : Text) → lex_lt a b ≡ false → lex_lt b a ≡ false → a ≡ b
neither a b h k = elim (Bool-cases (list_beq a b)) [
  | inl same ↦ (list_beq_iff a b).0 same
  | inr other ↦ absurd (ground (arith, lex_lt_total a b other h))
]

lt_asym : (a b : Text) → lex_lt a b ≡ true → lex_lt b a ≡ false
lt_asym a b h = elim (Bool-cases (lex_lt b a)) [
  | inr not_less ↦ not_less
  | inl less ↦ ground (arith, lex_lt_trans a b a h less, lex_lt_irrefl a)
]

-- The node is one of the list.
abbrev pub Among : NodeInfo → List NodeInfo → Type 0
Among n [] = ⊥
Among n (m ∷ nodes) = (n ≡ m) ⊎ Among n nodes

pub any-false :
    (p : NodeInfo → Bool) (nodes : List NodeInfo)
    → ((m : NodeInfo) → Among m nodes → p m ≡ false)
    → any p nodes ≡ false
any-false p [] h = refl
any-false p (n ∷ nodes) h = rw (any, h n (inl refl)) (any-false p nodes (λ m a. h m (inr a)))

pub and_left : (a b : Bool) → (a && b) ≡ true → a ≡ true
and_left a b h = ground arith

pub and_right : (a b : Bool) → (a && b) ≡ true → b ≡ true
and_right a b h = ground arith

pub keep-Among :
    (p : NodeInfo → Bool) (m : NodeInfo) (nodes : List NodeInfo)
    → Among m (keep p nodes) ↔ (Among m nodes × (p m ≡ true))
keep-Among p m [] = (λ h. absurd h, λ h. absurd h.0)
keep-Among p m (n ∷ nodes) =
    let transfer : m ≡ n → p m ≡ p n = λ e. ap p e in ground (arith, keep-Among p m nodes, transfer)

module _ (to_string : NodeId → Text) where
  -- No node of the list has a smaller key.
  abbrev pub Least : NodeInfo → List NodeInfo → Type 0
  Least n nodes =
      (m : NodeInfo) → Among m nodes → lex_lt (sort_key to_string m) (sort_key to_string n) ≡ false

  abbrev pub Sorted : List NodeInfo → Type 0
  Sorted [] = Unit
  Sorted (n ∷ nodes) = Least n nodes × Sorted nodes

  insert-Among :
      (n m : NodeInfo) (nodes : List NodeInfo)
      → Among m (insert_by_key to_string n nodes) ↔ ((m ≡ n) ⊎ Among m nodes)
  unfolding insert_by_key
  insert-Among n m [] = (λ h. h, λ h. h)
  insert-Among n m (k ∷ nodes) = ground (arith, insert-Among n m nodes)

  pub sort-Among :
      (m : NodeInfo) (nodes : List NodeInfo) → Among m (sort_by_key to_string nodes) ↔ Among m nodes
  unfolding sort_by_key
  sort-Among m [] = (λ h. h, λ h. h)
  sort-Among m (n ∷ nodes) =
      ground (arith, insert-Among n m (sort_by_key to_string nodes), sort-Among m nodes)

  insert-Sorted :
      (n : NodeInfo) (nodes : List NodeInfo)
      → Sorted nodes
      → Sorted (insert_by_key to_string n nodes)
  unfolding insert_by_key
  insert-Sorted n [] h = ((λ m x. absurd x), tt)
  insert-Sorted n (k ∷ nodes) h =
      let key = sort_key to_string in
      elim (Bool-cases (lex_lt (key k) (key n))) [
        | inl after ↦
            let before : Least k (insert_by_key to_string n nodes) = λ m among.
              elim ((insert-Among n m nodes).0 among) [
                | inl same ↦ rw (ap key same) (lt_asym (key k) (key n) after)
                | inr old ↦ h.0 m old
              ] in
            rw (insert_by_key, after) (before, insert-Sorted n nodes h.1)
        | inr front ↦
            let behind : Least n (k ∷ nodes) = λ m among. elim among [
              | inl same ↦ rw (ap key same) front
              | inr old ↦ not_lt_trans (key m) (key k) (key n) (h.0 m old) front
            ] in
            rw (insert_by_key, front) (behind, h)
      ]

  pub sort-Sorted : (nodes : List NodeInfo) → Sorted (sort_by_key to_string nodes)
  unfolding sort_by_key
  sort-Sorted [] = tt
  sort-Sorted (n ∷ nodes) = insert-Sorted n (sort_by_key to_string nodes) (sort-Sorted nodes)
