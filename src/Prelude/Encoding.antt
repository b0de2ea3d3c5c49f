-- ===== src/Prelude/Encoding.antt =====
-- Bytes: the order of byte strings, and `u64::to_le_bytes`, `to_be_bytes` with their inverses.
use Prim.Native.Nat.{ℕ, zero, suc, ◌+◌, ◌*◌, ◌/◌, ◌%◌, ◌^◌, ◌<◌, ◌≤◌}
use mathlib.Core.Path.{◌≡◌, refl, ap, ◌∙◌}
use mathlib.Core.Bool.{Bool, true, false}
use mathlib.Core.List.{List, [], ◌∷◌}
use native.Mathlib.Omega.{arith}
use native.Mathlib.Nat.{div-add-mod, mod-eq_of_lt, mod-lt, add-mul-mod_self_left}
use all4one.Prelude.Tests.{ltb, if◌then◌else◌}
use all4one.Prelude.Equality.{nat_beq, nat_eq, list_beq}
use all4one.Prelude.Lists.{length}

abbrev pub Bytes : Type 0
Bytes = List ℕ

-- The order of byte strings and of texts: position by position, a prefix first.
unfoldable pub lex_lt : List ℕ → List ℕ → Bool
lex_lt [] [] = false
lex_lt [] (y ∷ ys) = true
lex_lt (x ∷ xs) [] = false
lex_lt (x ∷ xs) (y ∷ ys) =
    let rest = lex_lt xs ys in if ltb x y then true else if nat_beq x y then rest else false

pub lex_lt_irrefl : (xs : List ℕ) → lex_lt xs xs ≡ false
unfolding lex_lt
lex_lt_irrefl [] = refl
lex_lt_irrefl (x ∷ xs) = ground (arith, lex_lt_irrefl xs)

pub lex_lt_trans : (a b c : List ℕ) → lex_lt a b ≡ true → lex_lt b c ≡ true → lex_lt a c ≡ true
unfolding lex_lt
lex_lt_trans [] b [] h k = ground arith
lex_lt_trans [] b (z ∷ c) h k = refl
lex_lt_trans (x ∷ a) [] c h k = cc
lex_lt_trans (x ∷ a) (y ∷ b) [] h k = cc
lex_lt_trans (x ∷ a) (y ∷ b) (z ∷ c) h k = ground (arith, lex_lt_trans a b c)

-- Of two different strings one comes first.
pub lex_lt_total : (a b : List ℕ) → list_beq a b ≡ false → lex_lt a b ≡ false → lex_lt b a ≡ true
unfolding lex_lt
lex_lt_total [] [] e h = cc
lex_lt_total [] (y ∷ b) e h = cc
lex_lt_total (x ∷ a) [] e h = refl
lex_lt_total (x ∷ a) (y ∷ b) e h = ground (arith, lex_lt_total a b)

unfoldable pub le_bytes : ℕ → ℕ → Bytes
le_bytes zero n = []
le_bytes (suc k) n = (n % 256) ∷ le_bytes k (n / 256)

unfoldable pub from_le_bytes : Bytes → ℕ
from_le_bytes [] = 0
from_le_bytes (b ∷ bs) = b + 256 * from_le_bytes bs

pub length-le_bytes : (k n : ℕ) → length (le_bytes k n) ≡ k
unfolding le_bytes
length-le_bytes zero n = refl
length-le_bytes (suc k) n = omega (arith, length-le_bytes k (n / 256))

pub from_le_bytes-le_bytes : (k n : ℕ) → n < 256 ^ k → from_le_bytes (le_bytes k n) ≡ n
unfolding le_bytes from_le_bytes
from_le_bytes-le_bytes zero n h = omega arith
from_le_bytes-le_bytes (suc k) n h = omega (arith, from_le_bytes-le_bytes k (n / 256) (omega arith))

unfoldable pub be_bytes : ℕ → ℕ → Bytes
be_bytes zero n = []
be_bytes (suc k) n = (n / 256 ^ k % 256) ∷ be_bytes k n

unfoldable pub from_be_bytes : ℕ → Bytes → ℕ
from_be_bytes acc [] = acc
from_be_bytes acc (b ∷ bs) = from_be_bytes (acc * 256 + b) bs

pow_pos : (k : ℕ) → 0 < 256 ^ k
pow_pos zero = omega arith
pow_pos (suc k) = omega (arith, pow_pos k)

row_le : (d e m : ℕ) → d < e → d * m + m ≤ e * m
row_le d e m h = grind arith

-- The remainder to base `256 * m`, from the digits to base `m`.
mod_split : (n m : ℕ) → 0 < m → n % (256 * m) ≡ n / m % 256 * m + n % m
mod_split n m h =
    let q = n / m / 256 in
    let x = n / m % 256 * m + n % m in
    let whole : n ≡ x + 256 * m * q =
      omega (arith, div-add-mod n m, ap (λ (t : ℕ). m * t) (div-add-mod (n / m) 256)) in
    let small : x < 256 * m = omega (arith, row_le (n / m % 256) 256 m (omega arith)) in
    ap (λ t. t % (256 * m)) whole ∙ add-mul-mod_self_left x (256 * m) q ∙ mod-eq_of_lt small

digits_order :
    (d e r s m : ℕ)
    → r < m
    → s < m
    → ltb (d * m + r) (e * m + s)
      ≡ (if ltb d e then true else if nat_beq d e then ltb r s else false)
digits_order d e r s m hr hs =
    ground (arith, row_le d e m, row_le e d m, ap (λ (t : ℕ). t * m) {x = d} {y = e})

pow_step : (k : ℕ) → 256 ^ suc k ≡ 256 * 256 ^ k
pow_step k = omega arith

horner : (acc d r m : ℕ) → (acc * 256 + d) * m + r ≡ acc * (256 * m) + (d * m + r)
horner acc d r m = omega arith

pub from_be_bytes-be_bytes_mod :
    (k acc n : ℕ) → from_be_bytes acc (be_bytes k n) ≡ acc * 256 ^ k + n % 256 ^ k
unfolding be_bytes from_be_bytes
from_be_bytes-be_bytes_mod zero acc n = omega arith
from_be_bytes-be_bytes_mod (suc k) acc n =
    from_be_bytes-be_bytes_mod k (acc * 256 + n / 256 ^ k % 256) n
    ∙ horner acc (n / 256 ^ k % 256) (n % 256 ^ k) (256 ^ k)
    ∙ rw (pow_step k, mod_split n (256 ^ k) (pow_pos k))

pub length-be_bytes : (k n : ℕ) → length (be_bytes k n) ≡ k
unfolding be_bytes
length-be_bytes zero n = refl
length-be_bytes (suc k) n = ap suc (length-be_bytes k n)

-- Big-endian bytes compare as the numbers do.
pub lex_lt-be_bytes :
    (k a b : ℕ) → lex_lt (be_bytes k a) (be_bytes k b) ≡ ltb (a % 256 ^ k) (b % 256 ^ k)
unfolding be_bytes lex_lt
lex_lt-be_bytes zero a b = ground arith
lex_lt-be_bytes (suc k) a b =
    let m = 256 ^ k in
    rw (
      pow_step k,
      mod_split a m (pow_pos k),
      mod_split b m (pow_pos k),
      digits_order (a / m % 256) (b / m % 256) (a % m) (b % m) m (mod-lt a (pow_pos k))
          (mod-lt b (pow_pos k)),
      lex_lt-be_bytes k a b,
    )
