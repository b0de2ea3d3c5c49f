-- ===== src/External/Serde.antt =====
-- serde_json for one type: writing may fail, and reading gives back what was written.
use all4one.Prelude.{◌≡◌, sym, Option, some, Bytes}

pub record Serde (A : Type 0) : Type 0 where
  pub to_vec : A → Option Bytes
  pub from_slice : Bytes → Option A
  pub from_slice-to_vec : (a : A) (b : Bytes) → to_vec a ≡ some b → from_slice b ≡ some a

-- A type of bytes written as it is.
abbrev pub verbatim : Serde Bytes
verbatim = record { to_vec = some; from_slice = some; from_slice-to_vec = λ a b h. sym h }
