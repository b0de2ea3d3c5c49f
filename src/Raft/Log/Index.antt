-- ===== src/Raft/Log/Index.antt =====
-- The keys of the log of agent/src/raft/store.rs: eight bytes, in the order of the indices.
use all4one.Prelude.{
  ℕ, ◌^◌, ◌<◌, ◌≡◌, ap, take-length, length-be_bytes, from_be_bytes-be_bytes_mod, lex_lt,
  lex_lt-be_bytes, be_bytes, ltb, Result, ok, arith,
}
use all4one.Raft.Log.{StorageError, encode_index, decode_index}
use native.Mathlib.Nat.{mod-eq_of_lt}

-- A `u64`.
abbrev pub IsIndex : ℕ → Type 0
IsIndex i = i < 2 ^ 64

word : (i : ℕ) → IsIndex i → i < 256 ^ 8
word i h = omega arith

-- `decode_index` reads back every index that `encode_index` wrote.
pub decode_index-encode_index : (i : ℕ) → IsIndex i → decode_index (encode_index i) ≡ ok i
unfolding encode_index decode_index
decode_index-encode_index i h =
    rw
      (
        length-be_bytes 8 i,
        take-length 8 (be_bytes 8 i) (omega (arith, length-be_bytes 8 i)),
        from_be_bytes-be_bytes_mod 8 0 i,
        mod-eq_of_lt (word i h),
      )
      (ap ok (omega arith))

ok-injective {ℓ κ} :
    {E : Type ℓ} {A : Type κ} {a b : A} → ◌≡◌ {A = Result E A} (ok a) (ok b) → a ≡ b
ok-injective h = cc

pub encode_index-injective :
    (i j : ℕ) → IsIndex i → IsIndex j → encode_index i ≡ encode_index j → i ≡ j
encode_index-injective i j hi hj e =
    ok-injective {E = StorageError}
      (cc (decode_index-encode_index i hi, decode_index-encode_index j hj, ap decode_index e))

-- For indices of 64 bits, the byte order of the keys, in which sled iterates, is the order of the
-- indices.
pub lex_lt-encode_index :
    (i j : ℕ) → IsIndex i → IsIndex j → lex_lt (encode_index i) (encode_index j) ≡ ltb i j
unfolding encode_index
lex_lt-encode_index i j hi hj =
    rw (lex_lt-be_bytes 8 i j, mod-eq_of_lt (word i hi), mod-eq_of_lt (word j hj))
