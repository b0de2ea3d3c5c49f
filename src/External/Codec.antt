-- ===== src/External/Codec.antt =====
-- sha2 and zstd. A digest is any function of the bytes; decompressing gives back what was compressed.
use all4one.Prelude.{ℕ, ◌≡◌, sym, Option, some, Bytes, Text}

pub record Codec : Type 0 where
  pub digest : Bytes → Text
  pub zstd_encode : (level : ℕ) → Bytes → Option Bytes
  pub zstd_decode : Bytes → Option Bytes
  pub decode-encode :
      (level : ℕ) (plain packed : Bytes)
      → zstd_encode level plain ≡ some packed
      → zstd_decode packed ≡ some plain

-- The bytes as their own digest, and as their own compressed form.
abbrev pub plain_codec : Codec
plain_codec = record {
  digest = λ b. b;
  zstd_encode = λ l. some;
  zstd_decode = some;
  decode-encode = λ l p q h. sym h;
}
