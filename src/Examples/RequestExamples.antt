-- ===== src/Examples/RequestExamples.antt =====
-- The properties of agent/src/certificates/mod.rs and of the handlers of agent/src/api_rest/mod.rs.
use all4one.Prelude.{
  ℕ, ◌≡◌, refl, ap, true, Option, none, some, List, [], ◌∷◌, ◌++◌, Text, Bytes, codes, get, nat_eq,
  list_eq, arith,
}
use all4one.External.Serde.{Serde}
use all4one.External.SledModel.{cell_db}
use all4one.Storage.Policy.{warm, zstd_level, policy_name, replicas, parse_policy}
use all4one.Storage.Metadata.{StorageFault}
use all4one.Storage.Index.{new_metadata}
use all4one.Storage.Chunks.{Files, Store, compress}
use all4one.Certificates.{RevokedNode, revoke, crl_file, read_crl, is_revoked, add_to_crl}
use all4one.Certificates.Revocation.{OnePerNode, is_revoked-add_to_crl}
use all4one.Rest.Objects.{content, object_created, put_object_handler, get_object_handler}
use all4one.Rest.Objects.Requests.{get-put_object_handler}
use all4one.Examples.Stored.{chunk_deps, written}

abbrev crl_bytes : List RevokedNode → Bytes
crl_bytes [] = []
crl_bytes (r ∷ crl) = r.node_id ∷ r.revoked_at ∷ r.revoked_by ∷ crl_bytes crl

abbrev with_entry : ℕ → ℕ → ℕ → Option (List RevokedNode) → Option (List RevokedNode)
with_entry id at by none = none
with_entry id at by (some crl) =
    some (record { node_id = id; revoked_at = at; revoked_by = by } ∷ crl)

abbrev read_entries : Bytes → Option (List RevokedNode)
read_entries [] = some []
read_entries (id ∷ []) = none
read_entries (id ∷ at ∷ []) = none
read_entries (id ∷ at ∷ by ∷ rest) = with_entry id at by (read_entries rest)

entries_law : (crl : List RevokedNode) → read_entries (crl_bytes crl) ≡ some crl
entries_law [] = refl
entries_law (r ∷ crl) = ap (with_entry r.node_id r.revoked_at r.revoked_by) (entries_law crl)

abbrev crl_json : Serde (List RevokedNode)
crl_json = record {
  to_vec = λ crl. some (crl_bytes crl);
  from_slice = read_entries;
  from_slice-to_vec = λ crl b h. written read_entries crl (crl_bytes crl) b (entries_law crl) h;
}

-- The list holds node 3.
abbrev revoked_three : List RevokedNode
revoked_three = record { node_id = 3; revoked_at = 1; revoked_by = 1 } ∷ []

abbrev crl_files : Files
crl_files = (codes "certs/crl.json", 3 ∷ 1 ∷ 1 ∷ []) ∷ []

is_revoked-add_to_crl_example :
    (files' : Files) × (crl' : List RevokedNode) × (add_to_crl crl_json 9 4 1 crl_files
      ≡ some files')
    × (read_crl crl_json files' ≡ some crl')
    × OnePerNode crl'
    × (is_revoked crl_json 4 files' ≡ some true)
unfolding revoke get crl_file
is_revoked-add_to_crl_example =
    is_revoked-add_to_crl crl_json 9 4 1 4 revoked_three (3 ∷ 1 ∷ 1 ∷ 4 ∷ 9 ∷ 1 ∷ []) crl_files refl
      (refl, tt) refl

abbrev letter_clock : ℕ → Text
letter_clock n = codes "t"

abbrev empty_store : Store chunk_deps
empty_store = record { files = []; db = cell_db.empty }

abbrev no_message : StorageFault → Text
no_message e = []

abbrev hello_json : Bytes
hello_json = b'b' ∷ b'k' ∷ b't' ∷ b't' ∷ 5 ∷ 1 ∷ 4 ∷ (codes "warm" ++ codes "hello")

get-put_object_handler_example :
    let after =
      put_object_handler chunk_deps no_message true letter_clock 1 []
        (codes "b")
        (codes "k")
        none
        (codes "hello")
        empty_store in
    (after.0
      ≡ object_created
          (new_metadata (codes "t") (codes "t") (codes "b") (codes "k") (codes "hello") 5 warm))
    × ((get_object_handler chunk_deps no_message true (codes "b") (codes "k") after.1).0
        ≡ content (codes "hello") (codes "hello"))
unfolding compress zstd_level policy_name replicas parse_policy
get-put_object_handler_example =
    get-put_object_handler chunk_deps no_message letter_clock 1 [] (codes "b") (codes "k") none
      (codes "hello") (codes "hello") hello_json empty_store refl (omega arith) refl
