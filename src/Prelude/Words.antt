-- ===== src/Prelude/Words.antt =====
-- Rust's `trim` and `split` on text.
use Prim.Native.Nat.{ℕ}
use mathlib.Core.Path.{◌≡◌, refl}
use mathlib.Core.Bool.{Bool, true, false, not, ◌&&◌, ◌||◌}
use mathlib.Core.Option.{Option, none, some}
use mathlib.Core.List.{List, [], ◌∷◌, ◌++◌}
use native.Mathlib.Omega.{arith}
use all4one.Prelude.Tests.{leb, if◌then◌else◌}
use all4one.Prelude.Equality.{nat_beq, nat_eq, beq_refl}
use all4one.Prelude.Texts.{Text}

-- The white space of `char::is_whitespace`.
unfoldable pub is_whitespace : ℕ → Bool
is_whitespace c =
    (leb 9 c && leb c 13)
    || nat_beq c 32
    || nat_beq c 133
    || nat_beq c 160
    || nat_beq c 5760
    || (leb 8192 c && leb c 8202)
    || nat_beq c 8232
    || nat_beq c 8233
    || nat_beq c 8239
    || nat_beq c 8287
    || nat_beq c 12288

unfoldable pub trim_start : Text → Text
trim_start [] = []
trim_start (c ∷ t) = let rest = trim_start t in if is_whitespace c then rest else c ∷ t

-- A character before what is left of the text behind it.
unfoldable pub before_trimmed : ℕ → Text → Text
before_trimmed c [] = if is_whitespace c then [] else c ∷ []
before_trimmed c (d ∷ t) = c ∷ d ∷ t

-- What is left of a text without the white space at its end.
unfoldable pub trim_end : Text → Text
unfolding before_trimmed
trim_end [] = []
trim_end (c ∷ t) = before_trimmed c (trim_end t)

unfoldable pub trim : Text → Text
unfolding trim_start trim_end
trim t = trim_end (trim_start t)

abbrev pub is_empty {ℓ} : {A : Type ℓ} → List A → Bool
is_empty [] = true
is_empty (x ∷ xs) = false

-- `t.trim().is_empty()`.
unfoldable pub is_blank : Text → Bool
unfolding trim
is_blank t = is_empty (trim t)

is_empty-before_trimmed :
    (c : ℕ) (u : Text) → is_whitespace c ≡ false → is_empty (before_trimmed c u) ≡ false
unfolding before_trimmed
is_empty-before_trimmed c [] solid = rw solid refl
is_empty-before_trimmed c (d ∷ u) solid = refl

-- A text that starts with a letter keeps it.
pub is_blank-false : (c : ℕ) (t : Text) → is_whitespace c ≡ false → is_blank (c ∷ t) ≡ false
unfolding is_blank trim trim_start trim_end
is_blank-false c t solid = rw solid (is_empty-before_trimmed c (trim_end t) solid)

-- `split_once(sep)`: what is before and after the first separator; the whole without one.
unfoldable pub split_first : ℕ → Text → Text × Option Text
split_first sep [] = ([], none)
split_first sep (c ∷ t) =
    let (before, after) = split_first sep t in
    if nat_beq c sep then ([], some t) else (c ∷ before, after)

-- `split(sep)`: the part before the first separator, and the parts after it.
unfoldable pub split_parts : ℕ → Text → Text × List Text
split_parts sep [] = ([], [])
split_parts sep (c ∷ t) =
    let (w, ws) = split_parts sep t in if nat_beq c sep then ([], w ∷ ws) else (c ∷ w, ws)

unfoldable pub split : ℕ → Text → List Text
unfolding split_parts
split sep t = let (w, ws) = split_parts sep t in w ∷ ws

-- Does the text have no separator?
abbrev pub lacks : ℕ → Text → Bool
lacks sep [] = true
lacks sep (c ∷ t) = not (nat_beq c sep) && lacks sep t

split_parts-lacks : (sep : ℕ) (t : Text) → lacks sep t ≡ true → split_parts sep t ≡ (t, [])
unfolding split_parts
split_parts-lacks sep [] h = refl
split_parts-lacks sep (c ∷ t) h = ground (arith, split_parts-lacks sep t)

split_parts-append :
    (sep : ℕ) (t rest : Text)
    → lacks sep t ≡ true
    → split_parts sep (t ++ (sep ∷ rest)) ≡ (t, split sep rest)
unfolding split_parts split
split_parts-append sep [] rest h = rw (beq_refl sep) refl
split_parts-append sep (c ∷ t) rest h = ground (arith, split_parts-append sep t rest)

pub split-lacks : (sep : ℕ) (t : Text) → lacks sep t ≡ true → split sep t ≡ t ∷ []
unfolding split
split-lacks sep t h = rw (split_parts-lacks sep t h) refl

pub split-append :
    (sep : ℕ) (t rest : Text)
    → lacks sep t ≡ true
    → split sep (t ++ (sep ∷ rest)) ≡ t ∷ split sep rest
unfolding split
split-append sep t rest h = rw (split_parts-append sep t rest h) refl
