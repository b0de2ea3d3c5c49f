-- ===== src/Agent/Identity/Persistence.antt =====
-- agent/src/node/mod.rs: the id of a node stays.
use all4one.Prelude.{
  ◌≡◌, ◌∙◌, refl, sym, subst, Option, some, Text, insert, get-insert_self, trim, nat_eq, list_eq,
  inl, inr, Option-cases,
}
use all4one.Common.{NodeId, Uuid}
use all4one.Storage.Chunks.{Files, read_file}
use all4one.Agent.Identity.{node_id_path, node_id}

-- A node keeps its id: once it has one, every later start finds the same, whatever other id would be
-- made, and leaves the files alone, if an id is read back from its text.
pub node_id_twice :
    (to_string : Uuid → Text) (parse_str : Text → Option Uuid) (fresh other id : NodeId)
    (files files' : Files)
    → parse_str (trim (to_string fresh)) ≡ some fresh
    → node_id to_string parse_str fresh files ≡ (some id, files')
    → node_id to_string parse_str other files' ≡ (some id, files')
unfolding node_id
node_id_twice to_string parse_str fresh other id files files' readable first =
    elim (Option-cases (read_file node_id_path files)) [
      | inl absent ↦
          let opened : node_id to_string parse_str fresh files
              ≡ (some fresh, insert node_id_path (to_string fresh) files) =
            rw (node_id, absent) refl in
          subst (λ (p : Option NodeId × Files). node_id to_string parse_str other p.1 ≡ p)
            (sym opened ∙ first)
            (rw (node_id, get-insert_self node_id_path (to_string fresh) files, readable) refl)
      | inr (raw, present) ↦
          let opened : node_id to_string parse_str fresh files ≡ (parse_str (trim raw), files) =
            rw (node_id, present) refl in
          subst (λ (p : Option NodeId × Files). node_id to_string parse_str other p.1 ≡ p)
            (sym opened ∙ first) (rw (node_id, present) refl)
    ]
