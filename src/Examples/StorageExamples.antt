-- ===== src/Examples/StorageExamples.antt =====
-- The properties of agent/src/storage but for the chunks, at small objects.
use all4one.Prelude.{
  ℕ, ◌≡◌, ◌≢◌, refl, false, List, [], ◌∷◌, ◌++◌, Bytes, codes, length, take, nat_eq, list_eq, arith,
  ok,
}
use all4one.Storage.Policy.{hot, warm, replicas}
use all4one.Storage.Erasure.{encode_erasure, decode_erasure, div_ceil}
use all4one.Storage.Erasure.RoundTrip.{decode-encode_erasure, AllLength}
use all4one.Storage.Metadata.{ObjectMetadata}
use all4one.Storage.Index.{new_metadata}
use all4one.Storage.Placement.{NodeCapacity, determine_placement, place_from, is_recoverable}
use all4one.Storage.Placement.Recovery.{placement_unrecoverable}

decode-encode_erasure_example :
    (shards : List Bytes) × (encode_erasure (codes "hello") 4 2 ≡ ok shards)
    × (length shards ≡ 6)
    × AllLength (div_ceil 13 4) shards
    × (decode_erasure (take 4 shards ++ []) 4 0 ≡ ok (codes "hello"))
decode-encode_erasure_example =
    decode-encode_erasure (codes "hello") 4 2 0 [] (omega arith) (omega arith)

abbrev stored_meta : ObjectMetadata
stored_meta = new_metadata (codes "t") (codes "t") (codes "b") (codes "k") (codes "e") 5 hot

abbrev stored_json : Bytes
stored_json = b'b' ∷ b'k' ∷ b't' ∷ b't' ∷ 5 ∷ 3 ∷ 3 ∷ (codes "hot" ++ codes "e")

abbrev capacity : ℕ → NodeCapacity
capacity i = record { node_id = i; available_bytes = 1000; used_bytes = 0 }

placement_unrecoverable_example : is_recoverable (5 ∷ []) warm [] ≡ false
unfolding determine_placement place_from replicas
placement_unrecoverable_example =
    placement_unrecoverable (codes "c") 100 warm (capacity 5 ∷ capacity 6 ∷ []) (5 ∷ []) [] apart
      refl
  where
    apart : warm ≢ hot
    apart e = absurd cc
