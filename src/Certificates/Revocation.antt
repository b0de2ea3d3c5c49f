-- ===== src/Certificates/Revocation.antt =====
-- agent/src/certificates/mod.rs: the list of revoked nodes.
use all4one.Prelude.{
  ℕ, ◌≡◌, refl, ap, ◌∙◌, true, false, ◌||◌, some, List, [], ◌∷◌, ◌++◌, Bytes, get-insert_self,
  insert, subst, nat_beq_iff, any, nat_eq, list_eq, ◌==◌, inl, inr, Bool-cases, arith,
}
use all4one.Common.{Uuid}
use all4one.External.Serde.{Serde}
use all4one.Storage.Chunks.{Files}
use all4one.Certificates.{RevokedNode, crl_file, is_of, revoke, read_crl, is_revoked, add_to_crl}

any-append :
    (id : Uuid) (r : RevokedNode) (crl : List RevokedNode)
    → any (is_of id) (crl ++ (r ∷ [])) ≡ (any (is_of id) crl || r.node_id == id)
any-append id r [] = ground arith
any-append id r (x ∷ crl) = ground (arith, any-append id r crl)

-- No two entries of the list are of one node.
abbrev pub OnePerNode : List RevokedNode → Type 0
OnePerNode [] = Unit
OnePerNode (r ∷ crl) = (any (is_of r.node_id) crl ≡ false) × OnePerNode crl

OnePerNode-append :
    (r : RevokedNode) (crl : List RevokedNode)
    → any (is_of r.node_id) crl ≡ false
    → OnePerNode crl
    → OnePerNode (crl ++ (r ∷ []))
OnePerNode-append r [] new one = (refl, tt)
OnePerNode-append r (x ∷ crl) new one = (
  any-append x.node_id r crl ∙ ground (arith, one.0, new),
  OnePerNode-append r crl (ground (arith, new)) one.1,
)

known_or :
    (id other : Uuid) (crl : List RevokedNode)
    → any (is_of id) crl ≡ true
    → any (is_of other) crl ≡ (id == other || any (is_of other) crl)
known_or id other crl found = elim (Bool-cases (id == other)) [
  | inl same ↦ rw same (subst (λ k. any (is_of k) crl ≡ true) ((nat_beq_iff id other).0 same) found)
  | inr apart ↦ rw apart refl
]

any-revoke :
    (now : ℕ) (id by other : Uuid) (crl : List RevokedNode)
    → any (is_of other) (revoke now id by crl) ≡ (id == other || any (is_of other) crl)
unfolding revoke
any-revoke now id by other crl = elim (Bool-cases (any (is_of id) crl)) [
  | inl found ↦ rw (revoke, found) (known_or id other crl found)
  | inr new ↦ rw (revoke, new) (any-append other _ crl ∙ ground arith)
]

OnePerNode-revoke :
    (now : ℕ) (id by : Uuid) (crl : List RevokedNode)
    → OnePerNode crl
    → OnePerNode (revoke now id by crl)
unfolding revoke
OnePerNode-revoke now id by crl one = elim (Bool-cases (any (is_of id) crl)) [
  | inl found ↦ rw (revoke, found) one
  | inr new ↦ rw (revoke, new) (OnePerNode-append _ crl new one)
]

-- A revocation that succeeds revokes the node, and no other: afterwards a node is found revoked exactly
-- if it is that node or was revoked before. The list then holds one entry at most for each node if it
-- did before. It succeeds whenever the list can be read and the new one can be written.
pub is_revoked-add_to_crl :
    (crl_json : Serde (List RevokedNode)) (now : ℕ) (id by other : Uuid) (crl : List RevokedNode)
    (json : Bytes) (files : Files)
    → read_crl crl_json files ≡ some crl
    → OnePerNode crl
    → crl_json.to_vec (revoke now id by crl) ≡ some json
    → (files' : Files) × (crl' : List RevokedNode) × (add_to_crl crl_json now id by files
        ≡ some files')
      × (read_crl crl_json files' ≡ some crl')
      × OnePerNode crl'
      × (is_revoked crl_json other files' ≡ some (id == other || any (is_of other) crl))
unfolding add_to_crl is_revoked
is_revoked-add_to_crl crl_json now id by other crl json files read one written =
    let here = get-insert_self crl_file json files in
    let back = crl_json.from_slice-to_vec (revoke now id by crl) json written in
    (
      insert crl_file json files,
      revoke now id by crl,
      rw (read, written) refl,
      rw (read_crl, here, back) refl,
      OnePerNode-revoke now id by crl one,
      rw (is_revoked, here, back) (ap some (any-revoke now id by other crl)),
    )
