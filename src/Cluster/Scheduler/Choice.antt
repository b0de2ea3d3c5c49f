-- ===== src/Cluster/Scheduler/Choice.antt =====
-- Which node `pick_node` of agent/src/scheduler/mod.rs chooses.
use all4one.Prelude.{
  ◌≡◌, ◌↔◌, refl, sym, ap, subst, fun_ext, ◌∙◌, Bool, true, false, ◌&&◌, Option, none, some, List,
  [], ◌∷◌, Text, keep, any, values, lex_lt, lex_lt_irrefl, Bool-cases, inl, inr, nat_eq, list_eq,
  arith,
}
use all4one.Common.{NodeId, NodeInfo, ClusterState}
use all4one.Cluster.Scheduler.{
  SchedulingRequest, runtime_supported, is_candidate, first_supported, sort_key, sort_by_key,
  pick_node,
}
use all4one.Cluster.Scheduler.Sorting.{
  neither, Among, any-false, and_left, and_right, keep-Among, Sorted, sort-Among, sort-Sorted,
}
use all4one.Cluster.Scheduler.Eligibility.{fits, fits_lem}

module _ (to_string : NodeId → Text) where
  -- Of the nodes that satisfy a test: there are none and nothing is chosen, or the choice is one with
  -- the smallest key.
  abbrev IsChoice : (NodeInfo → Bool) → List NodeInfo → Option NodeId → Type 0
  IsChoice p nodes none = (m : NodeInfo) → Among m nodes → p m ≡ false
  IsChoice p nodes (some id) =
      (n : NodeInfo) × Among n nodes
      × (p n ≡ true)
      × (n.profile.id ≡ id)
      × ((m : NodeInfo)
          → Among m nodes
          → p m ≡ true
          → lex_lt (sort_key to_string m) (sort_key to_string n) ≡ false)

  IsChoice-cons :
      (p : NodeInfo → Bool) (n : NodeInfo) (nodes : List NodeInfo) (o : Option NodeId)
      → p n ≡ false
      → IsChoice p nodes o
      → IsChoice p (n ∷ nodes) o
  IsChoice-cons p n nodes none h c =
      λ m among. elim among [ inl same ↦ ap p same ∙ h | inr old ↦ c m old ]
  IsChoice-cons p n nodes (some id) h (k, among, good, e, least) = (
    k,
    inr among,
    good,
    e,
    λ m a g. elim a [ inl same ↦ absurd (ground (arith, ap p same)) | inr old ↦ least m old g ],
  )

  first_supported-IsChoice :
      (req : SchedulingRequest) (nodes : List NodeInfo)
      → Sorted to_string nodes
      → IsChoice (λ n. runtime_supported n req) nodes (first_supported req nodes)
  unfolding first_supported
  first_supported-IsChoice req [] h = λ m x. absurd x
  first_supported-IsChoice req (n ∷ nodes) h =
      let key = sort_key to_string in
      let rest = first_supported-IsChoice req nodes h.1 in
      elim (Bool-cases (runtime_supported n req)) [
        | inl good ↦
            let least : (m : NodeInfo)
                → Among m (n ∷ nodes)
                → runtime_supported m req ≡ true
                → lex_lt (key m) (key n) ≡ false =
              λ m among g. elim among [
                | inl same ↦ rw (ap key same) (lex_lt_irrefl (key n))
                | inr old ↦ h.0 m old
              ] in
            rw (first_supported, good) (n, inl refl, good, refl, least)
        | inr bad ↦
            rw (first_supported, bad)
              (IsChoice-cons (λ m. runtime_supported m req) n nodes (first_supported req nodes) bad
                rest)
      ]

  -- A choice among the nodes that pass a first test is a choice for both tests.
  IsChoice-keep :
      (p q : NodeInfo → Bool) (nodes sorted : List NodeInfo) (o : Option NodeId)
      → ((m : NodeInfo) → Among m sorted ↔ Among m (keep p nodes))
      → IsChoice q sorted o
      → IsChoice (λ n. p n && q n) nodes o
  IsChoice-keep p q nodes sorted none e c = λ m among.
      let kept = keep-Among p m nodes in
      elim (Bool-cases (p m)) [
        | inl good ↦ rw (good, c m ((e m).1 (kept.1 (among, good)))) refl
        | inr bad ↦ rw bad refl
      ]
  IsChoice-keep p q nodes sorted (some id) e (n, among, good, same, least) =
      let kept = keep-Among p n nodes in
      (
        n,
        (kept.0 ((e n).0 among)).0,
        rw ((kept.0 ((e n).0 among)).1, good) refl,
        same,
        λ m a g.
            least m ((e m).1 ((keep-Among p m nodes).1 (a, and_left (p m) (q m) g)))
              (and_right (p m) (q m) g),
      )

  early_return :
      (req : SchedulingRequest) (candidates : List NodeInfo)
      → (elim candidates [
        | [] ↦ none
        | n ∷ nodes ↦ first_supported req (sort_by_key to_string (n ∷ nodes))
      ])
        ≡ first_supported req (sort_by_key to_string candidates)
  unfolding first_supported sort_by_key
  early_return req [] = refl
  early_return req (n ∷ nodes) = refl

  -- Of the nodes of a list, the chosen one satisfies a test, and no other that does has a smaller key;
  -- or none is chosen and none satisfies it.
  abbrev pub IsLeast : (NodeInfo → Bool) → List NodeInfo → Option NodeId → Type 0
  IsLeast p nodes none = any p nodes ≡ false
  IsLeast p nodes (some id) =
      (n : NodeInfo) × Among n nodes
      × (p n ≡ true)
      × (n.profile.id ≡ id)
      × (any (λ m. p m && lex_lt (sort_key to_string m) (sort_key to_string n)) nodes ≡ false)

  IsChoice-IsLeast :
      (p : NodeInfo → Bool) (nodes : List NodeInfo) (o : Option NodeId)
      → IsChoice p nodes o
      → IsLeast p nodes o
  IsChoice-IsLeast p nodes none c = any-false p nodes c
  IsChoice-IsLeast p nodes (some id) (n, among, good, same, least) = (
    n,
    among,
    good,
    same,
    any-false (λ m. p m && lex_lt (sort_key to_string m) (sort_key to_string n)) nodes
        (λ m a. elim (Bool-cases (p m)) [
          | inl both ↦ rw (both, least m a both) refl
          | inr bad ↦ rw bad refl
        ]),
  )

  pick_node-IsChoice :
      (local : NodeInfo) (cluster : ClusterState) (req : SchedulingRequest)
      → IsChoice
          (λ n. is_candidate req n && runtime_supported n req)
          (values cluster.nodes)
          (pick_node to_string local cluster req)
  unfolding pick_node
  pick_node-IsChoice local cluster req =
      let p = is_candidate req in
      let candidates = keep p (values cluster.nodes) in
      let sorted = sort_by_key to_string candidates in
      rw (early_return req candidates) (
        IsChoice-keep p (λ n. runtime_supported n req) (values cluster.nodes) sorted
          (first_supported req sorted) (λ m. sort-Among to_string m candidates)
          (first_supported-IsChoice req sorted (sort-Sorted to_string candidates)))

  IsChoice-unique :
      ((a b : NodeId) → to_string a ≡ to_string b → a ≡ b)
      → (p : NodeInfo → Bool) (xs ys : List NodeInfo) (o o' : Option NodeId)
      → ((n : NodeInfo) → Among n xs ↔ Among n ys)
      → IsChoice p xs o
      → IsChoice p ys o'
      → o ≡ o'
  IsChoice-unique inj p xs ys none none same c c' = refl
  IsChoice-unique inj p xs ys none (some i) same c (n, a, g, e, l) =
      absurd (ground (arith, c n ((same n).1 a)))
  IsChoice-unique inj p xs ys (some i) none same (n, a, g, e, l) c =
      absurd (ground (arith, c n ((same n).0 a)))
  IsChoice-unique inj p xs ys (some i) (some j) same (n, a, g, e, l) (m, b, h, d, k) =
      let below = l m ((same m).1 b) h in
      let above = k n ((same n).0 a) g in
      ap some (sym e ∙ inj n.profile.id m.profile.id (neither _ _ above below) ∙ d)

  -- A node that is picked is known, online, of the tier that is asked for or a higher one, has docker
  -- where that is asked for and what the runtime needs, and of all such nodes none has an id with a
  -- smaller text; where none is picked there is no such node.
  pub pick_node_lem :
      (local : NodeInfo) (cluster : ClusterState) (req : SchedulingRequest)
      → IsLeast (fits req) (values cluster.nodes) (pick_node to_string local cluster req)
  pick_node_lem local cluster req =
      subst (λ p. IsLeast p (values cluster.nodes) (pick_node to_string local cluster req))
        (fun_ext (fits_lem req))
        (IsChoice-IsLeast (λ n. is_candidate req n && runtime_supported n req)
          (values cluster.nodes) (pick_node to_string local cluster req)
          (pick_node-IsChoice local cluster req))

  -- The choice depends on the set of the nodes that are known, not on the order in which the map gives
  -- them, nor on the node that chooses, where different ids have different texts.
  pub pick_node_order :
      (local local' : NodeInfo) (cluster cluster' : ClusterState) (req : SchedulingRequest)
      → ((a b : NodeId) → to_string a ≡ to_string b → a ≡ b)
      → ((n : NodeInfo) → Among n (values cluster.nodes) ↔ Among n (values cluster'.nodes))
      → pick_node to_string local cluster req ≡ pick_node to_string local' cluster' req
  pick_node_order local local' cluster cluster' req inj same =
      let p : NodeInfo → Bool = λ n. is_candidate req n && runtime_supported n req in
      IsChoice-unique inj p (values cluster.nodes) (values cluster'.nodes)
        (pick_node to_string local cluster req) (pick_node to_string local' cluster' req) same
        (pick_node-IsChoice local cluster req) (pick_node-IsChoice local' cluster' req)
