-- ===== src/Storage/Policy/Names.antt =====
-- The readers of a policy's name in agent/src/storage, api_rest and grpc_server agree with the policy.
use all4one.Prelude.{◌+◌, ◌≡◌, refl}
use all4one.Storage.Policy.{
  StoragePolicy, hot, fmt_policy, policy_name, zstd_level, put_layout, get_layout, shard_count,
  parse_policy,
}

-- Each policy's name in the metadata is the one that it displays, and every reader of it finds what
-- the policy says: `get_chunks` the shards and the level that `put_chunks` wrote with, `read_shards`
-- the number of all those shards, and the receivers of a policy the policy itself.
pub policy_name_readers :
    (p : StoragePolicy)
    → (policy_name p ≡ fmt_policy p)
      × (get_layout (policy_name p) ≡ ((put_layout p).0, (put_layout p).1, zstd_level p))
      × (shard_count (policy_name p) ≡ (put_layout p).0 + (put_layout p).1)
      × (parse_policy (policy_name p) ≡ p)
unfolding policy_name fmt_policy get_layout put_layout shard_count parse_policy zstd_level
policy_name_readers hot = (refl, refl, refl, refl)
policy_name_readers _ = (refl, refl, refl, refl)
