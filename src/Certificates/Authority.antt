-- ===== src/Certificates/Authority.antt =====
-- agent/src/certificates/mod.rs: the files of the certificate authority and of a node.
use all4one.Prelude.{
  ◌≡◌, refl, true, ◌&&◌, Option, some, Text, Bytes, insert, get-insert, subst, contains_key, nat_eq,
  list_eq, ◌==◌, if◌then◌else◌, inl, inr, Bool-cases, Option-cases, arith,
}
use all4one.Storage.Chunks.{Files, read_file}
use all4one.Certificates.{
  cert_path, ca_key, ca_crt, node_key, node_crt, exists, has_ca_key, has_node_credentials,
  load_ca_pem, init_ca, write_pair, save_node_cert,
}

-- The files have different names.
read-cert_path :
    (name other : Text) (content : Bytes) (files : Files)
    → read_file (cert_path other) (insert (cert_path name) content files)
      ≡ (if name == other then some content else read_file (cert_path other) files)
unfolding cert_path
read-cert_path name other content files =
    get-insert (cert_path name) (cert_path other) content files

-- Both files of a pair are there after it is written.
written_exists :
    (pair : Bytes × Bytes) (files : Files)
    → let written = write_pair ca_crt ca_key pair files in
      (exists ca_key written && exists ca_crt written) ≡ true
written_exists (cert_pem, key_pem) files =
    let crt = insert (cert_path ca_crt) cert_pem files in
    rw
      (
        exists,
        contains_key,
        read-cert_path ca_key ca_key key_pem crt,
        read-cert_path ca_key ca_crt key_pem crt,
        read-cert_path ca_crt ca_crt cert_pem files,
      )
      refl

init_ca_lem :
    (generated : Option (Bytes × Bytes)) (files files' : Files)
    → init_ca generated files ≡ some files'
    → (exists ca_key files' && exists ca_crt files') ≡ true
unfolding init_ca
init_ca_lem generated files files' e =
    elim (Bool-cases (exists ca_key files && exists ca_crt files)) [
      | inl both ↦
          let same : files ≡ files' = ground (arith, both, e) in
          subst (λ (f : Files). (exists ca_key f && exists ca_crt f) ≡ true) same both
      | inr other ↦ elim (Option-cases generated) [
        | inl failed ↦ absurd (ground (arith, other, failed, e))
        | inr (pair, made) ↦
            let same : write_pair ca_crt ca_key pair files ≡ files' =
              ground (arith, other, made, e) in
            subst (λ (f : Files). (exists ca_key f && exists ca_crt f) ≡ true) same
              (written_exists pair files)
      ]
    ]

-- Setting up the authority a second time changes nothing, whatever is generated: if it succeeds, the
-- node then has the authority's key and certificate, and every later call keeps all files.
pub init_ca_twice :
    (first second : Option (Bytes × Bytes)) (files files' : Files)
    → init_ca first files ≡ some files'
    → (has_ca_key files' ≡ true) × (init_ca second files' ≡ some files')
unfolding init_ca has_ca_key
init_ca_twice first second files files' e =
    let both = init_ca_lem first files files' e in (ground (arith, both), rw (init_ca, both) refl)

-- The credentials that a node saves are those that it loads, and it then has them all; the authority's
-- key is what it was.
pub load-save_node_cert :
    (cert_pem key_pem ca_pem : Bytes) (files : Files)
    → let saved = save_node_cert cert_pem key_pem ca_pem files in
      (has_node_credentials saved ≡ true)
      × (read_file (cert_path node_crt) saved ≡ some cert_pem)
      × (read_file (cert_path node_key) saved ≡ some key_pem)
      × (load_ca_pem saved ≡ some ca_pem)
      × (has_ca_key saved ≡ has_ca_key files)
unfolding save_node_cert has_node_credentials load_ca_pem has_ca_key
load-save_node_cert cert_pem key_pem ca_pem files =
    let crt = insert (cert_path node_crt) cert_pem files in
    let key = insert (cert_path node_key) key_pem crt in
    rw
      (
        has_node_credentials,
        has_ca_key,
        exists,
        contains_key,
        read-cert_path ca_crt node_crt ca_pem key,
        read-cert_path ca_crt node_key ca_pem key,
        read-cert_path ca_crt ca_crt ca_pem key,
        read-cert_path ca_crt ca_key ca_pem key,
        read-cert_path node_key node_crt key_pem crt,
        read-cert_path node_key node_key key_pem crt,
        read-cert_path node_key ca_key key_pem crt,
        read-cert_path node_crt node_crt cert_pem files,
        read-cert_path node_crt ca_key cert_pem files,
      )
      (refl, refl, refl, refl, refl)
