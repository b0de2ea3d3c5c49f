-- ===== src/Certificates.antt =====
-- agent/src/certificates/mod.rs: the certificates and keys of a node, and the list of revoked nodes. The
-- files are a map from paths below the data directory, as in the model of the chunks; an operation that
-- writes gives none where it fails, and then has written nothing. Making a certificate is the rcgen
-- library's, reading one the rustls library's: what they give is an argument. Permissions of files are
-- left out.
pub mod Revocation
pub mod Authority
use all4one.Prelude.{
  ℕ, Bool, true, false, ◌&&◌, Option, none, some, List, [], ◌∷◌, ◌++◌, Text, Bytes, codes, get,
  insert, contains_key, any, nat_eq, list_eq, ◌==◌, if◌then◌else◌,
}
use mathlib.Core.Option
use all4one.Common.{Uuid}
use all4one.External.Serde.{Serde}
use all4one.Storage.Chunks.{Files, join_path, read_file}

pub record RevokedNode : Type 0 where
  pub node_id : Uuid
  pub revoked_at : ℕ
  pub revoked_by : Uuid

-- `certs_dir.join(name)`, and `crl_file`.
unfoldable pub cert_path : Text → Text
cert_path name = join_path (codes "certs") name

unfoldable pub crl_file : Text
unfolding cert_path
crl_file = cert_path (codes "crl.json")

abbrev pub ca_key : Text
ca_key = codes "ca.key"

abbrev pub ca_crt : Text
ca_crt = codes "ca.crt"

abbrev pub node_key : Text
node_key = codes "node.key"

abbrev pub node_crt : Text
node_crt = codes "node.crt"

abbrev pub exists : Text → Files → Bool
exists name files = contains_key (cert_path name) files

unfoldable pub has_ca_key : Files → Bool
has_ca_key files = exists ca_key files

unfoldable pub has_node_credentials : Files → Bool
has_node_credentials files = exists node_crt files && exists node_key files && exists ca_crt files

unfoldable pub load_ca_pem : Files → Option Bytes
load_ca_pem files = read_file (cert_path ca_crt) files

abbrev pub write_pair : (crt key : Text) → Bytes × Bytes → Files → Files
write_pair crt key (cert_pem, key_pem) files =
    insert (cert_path key) key_pem (insert (cert_path crt) cert_pem files)

-- `init_ca`; `generated` is what `generate_ca_cert` gives.
unfoldable pub init_ca : (generated : Option (Bytes × Bytes)) → Files → Option Files
init_ca generated files =
    if exists ca_key files && exists ca_crt files
    then some files
    else elim generated [ none ↦ none | some pair ↦ some (write_pair ca_crt ca_key pair files) ]

-- A certificate and its key, of the names of their subject. Both kinds are made alike.
module _ (to_string : Uuid → Text) (self_signed : List Text → Option (Bytes × Bytes)) where
  abbrev pub generate_ca_cert : Option (Bytes × Bytes)
  generate_ca_cert = self_signed (codes "all4one-ca" ∷ [])

  abbrev pub generate_node_cert : Uuid → Option (Bytes × Bytes)
  generate_node_cert id = self_signed (to_string id ∷ [])

  -- The request is not read.
  abbrev pub sign_csr : Uuid → (csr_pem : Text) → Option Bytes
  sign_csr id csr_pem = Option.map (λ (p : Bytes × Bytes). p.0) (generate_node_cert id)

-- The first certificate of a file, where `pem` reads all of them.
abbrev pub first_of {ℓ} : {A : Type ℓ} → Option (List A) → Option A
first_of none = none
first_of (some []) = none
first_of (some (x ∷ xs)) = some x

module _ {ℓ} {A : Type ℓ} (pem : Bytes → Option (List A)) where
  abbrev pub load_cert : Text → Files → Option A
  load_cert name files = elim (read_file (cert_path name) files) [
    | none ↦ none
    | some text ↦ first_of (pem text)
  ]

  unfoldable pub load_ca : Files → Option A
  load_ca files = load_cert ca_crt files

  unfoldable pub load_node_cert : Files → Option A
  load_node_cert files = load_cert node_crt files

unfoldable pub load_node_key {ℓ} : {K : Type ℓ} → (pem : Bytes → Option K) → Files → Option K
load_node_key pem files = elim (read_file (cert_path node_key) files) [
  | none ↦ none
  | some text ↦ pem text
]

unfoldable pub save_node_cert : (cert_pem key_pem ca_pem : Bytes) → Files → Files
save_node_cert cert_pem key_pem ca_pem files =
    insert (cert_path ca_crt) ca_pem (write_pair node_crt node_key (cert_pem, key_pem) files)

abbrev pub is_of : Uuid → RevokedNode → Bool
is_of id r = r.node_id == id

-- The entry is added where there is none of the node.
unfoldable pub revoke : (now : ℕ) → Uuid → (by : Uuid) → List RevokedNode → List RevokedNode
revoke now id by crl =
    if any (is_of id) crl
    then crl
    else crl ++ (record { node_id = id; revoked_at = now; revoked_by = by } ∷ [])

module _ (crl_json : Serde (List RevokedNode)) where
  -- The list that a file holds, and without a file the empty one.
  abbrev pub read_crl : Files → Option (List RevokedNode)
  read_crl files = elim (read_file crl_file files) [
    | none ↦ some []
    | some b ↦ crl_json.from_slice b
  ]

  unfoldable pub is_revoked : Uuid → Files → Option Bool
  is_revoked id files = elim (read_file crl_file files) [
    | none ↦ some false
    | some b ↦ Option.map (any (is_of id)) (crl_json.from_slice b)
  ]

  abbrev pub write_crl : Files → Option (List RevokedNode) → Option Files
  write_crl files none = none
  write_crl files (some crl) =
      Option.map (λ (b : Bytes). insert crl_file b files) (crl_json.to_vec crl)

  unfoldable pub add_to_crl : (now : ℕ) → Uuid → (by : Uuid) → Files → Option Files
  add_to_crl now id by files = write_crl files (Option.map (revoke now id by) (read_crl files))
