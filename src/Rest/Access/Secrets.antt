-- ===== src/Rest/Access/Secrets.antt =====
-- agent/src/api_rest/mod.rs: which requests `shared_secret_middleware` passes on.
use all4one.Prelude.{
  ◌≡◌, ◌∙◌, refl, ap, Bool, true, false, not, ◌&&◌, Option, none, some, List, [], ◌∷◌, ◌++◌, Text,
  codes, starts_with, trim, is_empty, split, split_first, lacks, split-lacks, split-append, nat_eq,
  list_eq, list_beq, beq_refl, arith,
}
use all4one.Grpc.Join.{Security}
use all4one.Grpc.Messages.{text_or_empty}
use all4one.Rest.Access.{Request, find_secret, query_secret, is_passed_on}

-- Pairs joined by `&`, before a last one.
abbrev pub joined : List Text → Text → Text
joined [] last = last
joined (pair ∷ pairs) last = pair ++ (b'&' ∷ joined pairs last)

-- No pair has a separator in it.
abbrev pub separate : List Text → Bool
separate [] = true
separate (t ∷ ts) = lacks b'&' t && separate ts

split-joined :
    (pairs : List Text) (last : Text)
    → separate pairs ≡ true
    → lacks b'&' last ≡ true
    → split b'&' (joined pairs last) ≡ pairs ++ (last ∷ [])
split-joined [] last apart alone = split-lacks b'&' last alone
split-joined (pair ∷ pairs) last apart alone =
    split-append b'&' pair (joined pairs last) (ground (arith, apart))
    ∙ ap (λ ws. pair ∷ ws) (split-joined pairs last (ground (arith, apart)) alone)

find_secret-append :
    (pairs : List Text) (s : Text)
    → find_secret pairs ≡ none
    → find_secret (pairs ++ ((codes "secret=" ++ s) ∷ [])) ≡ some s
unfolding find_secret split_first
find_secret-append [] s none_found = refl
find_secret-append (pair ∷ pairs) s none_found = ground (arith, find_secret-append pairs s)

query_secret-joined :
    (pairs : List Text) (s : Text)
    → separate pairs ≡ true
    → find_secret pairs ≡ none
    → lacks b'&' s ≡ true
    → query_secret (some (joined pairs (codes "secret=" ++ s))) ≡ s
unfolding query_secret
query_secret-joined pairs s apart others alone =
    ap (λ ws. text_or_empty (find_secret ws))
      (split-joined pairs (codes "secret=" ++ s) apart alone)
    ∙ ap text_or_empty (find_secret-append pairs s others)

passed_on :
    (security : Security) (r : Request)
    → query_secret r.query ≡ trim security.shared_secret
    → is_passed_on security r ≡ true
unfolding is_passed_on
passed_on security r same = rw (same, beq_refl (trim security.shared_secret)) (ground arith)

-- A request is passed on if its query gives the configured secret after any pairs with other keys; no
-- `&` may stand in the secret.
pub secret_in_query :
    (security : Security) (path : Text) (header : Option Text) (pairs : List Text)
    → separate pairs ≡ true
    → find_secret pairs ≡ none
    → lacks b'&' (trim security.shared_secret) ≡ true
    → is_passed_on security (record {
      path = path;
      header = header;
      query = some (joined pairs (codes "secret=" ++ trim security.shared_secret));
    })
      ≡ true
unfolding is_passed_on query_secret
secret_in_query security path header pairs apart others alone =
    passed_on security
      (record {
        path = path;
        header = header;
        query = some (joined pairs (codes "secret=" ++ trim security.shared_secret));
      })
      (query_secret-joined pairs (trim security.shared_secret) apart others alone)

-- A request from outside that names no secret is refused if one is configured.
pub refused_without_secret :
    (security : Security) (r : Request)
    → security.mode ≡ codes "shared-secret"
    → is_empty (trim security.shared_secret) ≡ false
    → starts_with (codes "/v1/internal/") r.path ≡ false
    → r.header ≡ none
    → query_secret r.query ≡ []
    → is_passed_on security r ≡ false
unfolding is_passed_on
refused_without_secret security r mode given outside headless queryless =
    rw (mode, given, outside, headless, queryless) (unequal (trim security.shared_secret) given)
  where
    unequal :
        (t : Text) → is_empty t ≡ false → not (not (list_beq [] t) && not (list_beq [] t)) ≡ false
    unequal [] h = absurd (ground (arith, h))
    unequal (c ∷ t) h = refl
