-- ===== src/Rest/Access.antt =====
-- agent/src/api_rest/mod.rs: the shared secret of a request, `shared_secret_middleware`.
pub mod Secrets
use all4one.Prelude.{
  Bool, true, false, not, ◌&&◌, ◌||◌, Option, none, some, List, [], ◌∷◌, Text, codes, starts_with,
  trim, is_empty, split, split_first, nat_eq, list_eq, ◌==◌, if◌then◌else◌,
}
use all4one.Grpc.Join.{Security}
use all4one.Grpc.Messages.{text_or_empty}

-- What the check reads of a request. A header that is no text counts as missing.
pub record Request : Type 0 where
  pub path : Text
  pub header : Option Text
  pub query : Option Text

-- The value of the first pair with the key `secret`, which may have no `=`.
unfoldable pub find_secret : List Text → Option Text
find_secret [] = none
find_secret (pair ∷ pairs) =
    let rest = find_secret pairs in
    let (key, value) = split_first b'=' pair in
    if key == codes "secret" then some (text_or_empty value) else rest

unfoldable pub query_secret : Option Text → Text
unfolding find_secret
query_secret none = []
query_secret (some q) = text_or_empty (find_secret (split b'&' q))

-- Is the request passed on? Otherwise it is answered as unauthorized.
unfoldable pub is_passed_on : Security → Request → Bool
unfolding query_secret
is_passed_on security r =
    let configured = trim security.shared_secret in
    if not (security.mode == codes "shared-secret")
    then true
    else if starts_with (codes "/v1/internal/") r.path
    then true
    else if is_empty configured
    then true
    else not
        (not (text_or_empty r.header == configured) && not (query_secret r.query == configured))
