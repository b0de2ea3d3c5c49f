-- ===== src/Prelude/Lists.antt =====
-- Lists measured and cut by native numbers, under the library's names.
use Prim.Native.Nat.{ℕ, zero, suc, ◌+◌, ◌-◌, ◌≤◌, min}
use mathlib.Core.Path.{◌≡◌, refl, sym, ap, ◌∙◌}
use mathlib.Core.List.{List, [], ◌∷◌, ◌++◌}
use native.Mathlib.Decide.{dec_le}
use mathlib.Core.Bool.{Bool, true, false}
use native.Mathlib.Omega.{arith}
use mathlib.Core.Option.{Option, none, some}

module _ {ℓ} {A : Type ℓ} where
  abbrev pub length : List A → ℕ
  length [] = 0
  length (x ∷ xs) = suc (length xs)

  abbrev pub take : ℕ → List A → List A
  take zero xs = []
  take (suc n) [] = []
  take (suc n) (x ∷ xs) = x ∷ take n xs

  abbrev pub drop : ℕ → List A → List A
  drop zero xs = xs
  drop (suc n) [] = []
  drop (suc n) (x ∷ xs) = drop n xs

  abbrev pub replicate : ℕ → A → List A
  replicate zero a = []
  replicate (suc n) a = a ∷ replicate n a

  abbrev pub get_elem? : List A → ℕ → Option A
  get_elem? [] i = none
  get_elem? (x ∷ xs) zero = some x
  get_elem? (x ∷ xs) (suc i) = get_elem? xs i

  pub length-append : (xs ys : List A) → length (xs ++ ys) ≡ length xs + length ys
  length-append [] ys = omega arith
  length-append (x ∷ xs) ys = omega (arith, length-append xs ys)

  pub take-append-drop : (n : ℕ) (xs : List A) → take n xs ++ drop n xs ≡ xs
  take-append-drop zero xs = refl
  take-append-drop (suc n) [] = refl
  take-append-drop (suc n) (x ∷ xs) = rw (take-append-drop n xs)

  pub length-take : (n : ℕ) (xs : List A) → length (take n xs) ≡ min n (length xs)
  length-take zero xs = omega arith
  length-take (suc n) [] = omega arith
  length-take (suc n) (x ∷ xs) = omega (arith, length-take n xs)

  pub length-drop : (n : ℕ) (xs : List A) → length (drop n xs) ≡ length xs - n
  length-drop zero xs = omega arith
  length-drop (suc n) [] = omega arith
  length-drop (suc n) (x ∷ xs) = omega (arith, length-drop n xs)

  pub length-replicate : (n : ℕ) (a : A) → length (replicate n a) ≡ n
  length-replicate zero a = refl
  length-replicate (suc n) a = ap suc (length-replicate n a)

  -- Cutting at the seam of an append.
  pub take-append : (xs ys : List A) → take (length xs) (xs ++ ys) ≡ xs
  take-append [] ys = refl
  take-append (x ∷ xs) ys = ap (λ t. x ∷ t) (take-append xs ys)

  pub drop-append : (xs ys : List A) → drop (length xs) (xs ++ ys) ≡ ys
  drop-append [] ys = refl
  drop-append (x ∷ xs) ys = drop-append xs ys

  pub drop-nil : (n : ℕ) → drop n [] ≡ []
  drop-nil zero = refl
  drop-nil (suc n) = refl

  pub eq-nil : (xs : List A) → length xs ≤ 0 → xs ≡ []
  eq-nil [] h = refl
  eq-nil (x ∷ xs) h = absurd (omega arith)

  pub take-nil : (n : ℕ) → take n [] ≡ []
  take-nil zero = refl
  take-nil (suc n) = refl

  pub drop-drop : (m n : ℕ) (xs : List A) → drop m (drop n xs) ≡ drop (n + m) xs
  drop-drop m zero xs = let e : zero + m ≡ m = omega arith in rw e refl
  drop-drop m (suc n) [] = drop-nil m ∙ sym (drop-nil (suc n + m))
  drop-drop m (suc n) (x ∷ xs) =
      let e : suc n + m ≡ suc (n + m) = omega arith in rw e (drop-drop m n xs)

  pub drop-length : (n : ℕ) (xs : List A) → length xs ≤ n → drop n xs ≡ []
  drop-length zero [] h = refl
  drop-length zero (x ∷ xs) h = absurd (omega arith)
  drop-length (suc n) [] h = refl
  drop-length (suc n) (x ∷ xs) h = drop-length n xs (omega arith)

  pub take-length : (n : ℕ) (xs : List A) → length xs ≤ n → take n xs ≡ xs
  take-length zero [] h = refl
  take-length zero (x ∷ xs) h = absurd (omega arith)
  take-length (suc n) [] h = refl
  take-length (suc n) (x ∷ xs) h = ap (λ t. x ∷ t) (take-length n xs (omega arith))

-- `iter().filter(p)` with a Boolean test.
module _ {ℓ} {A : Type ℓ} where
  abbrev pub keep : (A → Bool) → List A → List A
  keep p [] = []
  keep p (x ∷ xs) = let rest = keep p xs in elim (p x) [ true ↦ x ∷ rest | false ↦ rest ]

  abbrev pub any : (A → Bool) → List A → Bool
  any p [] = false
  any p (x ∷ xs) = let rest = any p xs in elim (p x) [ true ↦ true | false ↦ rest ]

module _ {ℓ} {A : Type ℓ} where
  pub take-min : (n : ℕ) (xs : List A) → take (min n (length xs)) xs ≡ take n xs
  take-min n xs = if_short (dec_le n (length xs))
    where
      if_short : Dec (n ≤ length xs) → take (min n (length xs)) xs ≡ take n xs
      if_short (yes h) = ap (λ k. take k xs) (omega arith)
      if_short (no h) =
          let e : min n (length xs) ≡ length xs = omega arith in
          rw (e, take-length (length xs) xs (omega arith), take-length n xs (omega arith))

  pub take-add : (m n : ℕ) (xs : List A) → take m xs ++ take n (drop m xs) ≡ take (m + n) xs
  take-add zero n xs = let e : zero + n ≡ n = omega arith in rw e refl
  take-add (suc m) n [] = rw (drop-nil (suc m), take-nil n, take-nil (suc m + n))
  take-add (suc m) n (x ∷ xs) =
      let e : suc m + n ≡ suc (m + n) = omega arith in rw e (ap (λ t. x ∷ t) (take-add m n xs))

  pub take-replicate : (n z : ℕ) (a : A) → n ≤ z → take n (replicate z a) ≡ replicate n a
  take-replicate zero z a h = refl
  take-replicate (suc n) zero a h = absurd (omega arith)
  take-replicate (suc n) (suc z) a h = ap (λ t. a ∷ t) (take-replicate n z a (omega arith))

  pub drop-replicate : (n z : ℕ) (a : A) → drop n (replicate z a) ≡ replicate (z - n) a
  drop-replicate zero z a = let e : z ≡ z - 0 = omega arith in ap (λ k. replicate k a) e
  drop-replicate (suc n) zero a =
      let e : 0 ≡ zero - suc n = omega arith in ap (λ k. replicate k a) e
  drop-replicate (suc n) (suc z) a =
      let e : z - n ≡ suc z - suc n = omega arith in
      drop-replicate n z a ∙ ap (λ k. replicate k a) e

  -- Cutting a list with a tail of copies.
  pub drop-append-replicate :
      (s z : ℕ) (a : A) (xs : List A)
      → drop s (xs ++ replicate z a) ≡ drop s xs ++ replicate (z - (s - length xs)) a
  drop-append-replicate zero z a xs =
      let e : z ≡ z - (0 - length xs) = omega arith in ap (λ k. xs ++ replicate k a) e
  drop-append-replicate (suc s) z a [] =
      let e : z - suc s ≡ z - (suc s - 0) = omega arith in
      drop-replicate (suc s) z a ∙ ap (λ k. replicate k a) e
  drop-append-replicate (suc s) z a (x ∷ xs) =
      let e : z - (s - length xs) ≡ z - (suc s - suc (length xs)) = omega arith in
      drop-append-replicate s z a xs ∙ ap (λ k. drop s xs ++ replicate k a) e

  pub take-append-replicate :
      (n z : ℕ) (a : A) (xs : List A)
      → n ≤ length xs + z
      → take n (xs ++ replicate z a) ≡ take n xs ++ drop (length (take n xs)) (replicate n a)
  take-append-replicate zero z a xs h = refl
  take-append-replicate (suc n) z a [] h = take-replicate (suc n) z a (omega arith)
  take-append-replicate (suc n) z a (x ∷ xs) h =
      ap (λ t. x ∷ t) (take-append-replicate n z a xs (omega arith))
