-- ===== src/Storage/Policy.antt =====
-- agent/src/storage/mod.rs: the storage policies, and every place that reads one from its name.
pub mod Names
use all4one.Prelude.{
  ℕ, ◌+◌, Option, none, some, Text, Bool, codes, map, leb, ◌&&◌, list_eq, nat_eq, ◌==◌,
  if◌then◌else◌,
}

pub data StoragePolicy : Type 0 where
  hot warm cold archive : StoragePolicy

-- `impl Display`, the derived `Debug`, and `to_lowercase` on letters of ASCII.
pub fmt_policy : StoragePolicy → Text
fmt_policy hot = codes "hot"
fmt_policy warm = codes "warm"
fmt_policy cold = codes "cold"
fmt_policy archive = codes "archive"

debug_name : StoragePolicy → Text
debug_name hot = codes "Hot"
debug_name warm = codes "Warm"
debug_name cold = codes "Cold"
debug_name archive = codes "Archive"

unfoldable pub to_lowercase : Text → Text
to_lowercase = map (λ c. if leb b'A' c && leb c b'Z' then c + 32 else c)

-- `format!("{:?}", policy).to_lowercase()`, the name that the metadata keep.
unfoldable pub policy_name : StoragePolicy → Text
unfolding debug_name to_lowercase
policy_name p = to_lowercase (debug_name p)

unfoldable pub replicas : StoragePolicy → ℕ
replicas hot = 3
replicas _ = 1

unfoldable pub erasure_coding : StoragePolicy → Option (ℕ × ℕ)
erasure_coding hot = none
erasure_coding warm = some (4, 2)
erasure_coding cold = some (6, 3)
erasure_coding archive = some (8, 4)

unfoldable pub zstd_level : StoragePolicy → ℕ
zstd_level hot = 0
zstd_level warm = 3
zstd_level cold = 19
zstd_level archive = 22

-- `policy.erasure_coding().unwrap_or((1, 0))` of `put_chunks`.
unfoldable pub put_layout : StoragePolicy → ℕ × ℕ
unfolding erasure_coding
put_layout p = elim (erasure_coding p) [ none ↦ (1, 0) | some l ↦ l ]

-- What `get_chunks` reads from the name of a policy: data shards, parity shards, level.
unfoldable pub get_layout : Text → ℕ × ℕ × ℕ
get_layout name =
    if name == codes "hot"
    then (1, 0, 0)
    else if name == codes "warm"
    then (4, 2, 3)
    else if name == codes "cold"
    then (6, 3, 19)
    else if name == codes "archive"
    then (8, 4, 22)
    else (1, 0, 0)

-- What `read_shards` reads from it: the number of all shards.
unfoldable pub shard_count : Text → ℕ
shard_count name =
    if name == codes "hot"
    then 1
    else if name == codes "warm"
    then 6
    else if name == codes "cold"
    then 9
    else if name == codes "archive"
    then 12
    else 1

-- What `put_object_handler` and `transfer_chunk` read from it.
unfoldable pub parse_policy : Text → StoragePolicy
parse_policy name =
    if name == codes "hot"
    then hot
    else if name == codes "cold"
    then cold
    else if name == codes "archive"
    then archive
    else warm
