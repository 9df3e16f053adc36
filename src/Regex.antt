-- ===== src/Regex.antt =====
-- The part of Go's regexp that spec.go and its siblings use: anchored expressions over byte
-- classes, matched by derivatives. Every expression of the program is `^...$` without flags, so a
-- match is a match of the whole text. The classes are ASCII, so bytes serve for runes.
pub mod Alphabet
use kernelbuild_buildkit.Common.{ℕ, zero, suc, Bool, true, false, ◌&&◌, ◌||◌, List, [], ◌∷◌, ◌==◌}
use kernelbuild_buildkit.Common.{Bytes, if◌then◌else◌}

pub data Regex : Type 0 where
  empty : Regex
  epsilon : Regex
  class : (ℕ → Bool) → Regex
  cat : Regex → Regex → Regex
  alt : Regex → Regex → Regex
  star : Regex → Regex

unfoldable pub nullable : Regex → Bool
nullable empty = false
nullable epsilon = true
nullable (class p) = false
nullable (cat r s) = nullable r && nullable s
nullable (alt r s) = nullable r || nullable s
nullable (star r) = true

-- Concatenation and alternation that drop the empty expression, so that a derivative stays small.
abbrev pub cat_small : Regex → Regex → Regex
cat_small empty s = empty
cat_small epsilon s = s
cat_small r s = cat r s

abbrev pub alt_small : Regex → Regex → Regex
alt_small empty s = s
alt_small r empty = r
alt_small r s = alt r s

-- What must follow the byte `c` for the whole to match.
unfoldable pub deriv : ℕ → Regex → Regex
unfolding nullable
deriv c empty = empty
deriv c epsilon = empty
deriv c (class p) = if p c then epsilon else empty
deriv c (cat r s) =
    let first = cat_small (deriv c r) s in
    let second = deriv c s in if nullable r then alt_small first second else first
deriv c (alt r s) = alt_small (deriv c r) (deriv c s)
deriv c (star r) = cat_small (deriv c r) (star r)

-- MatchString of `^r$`.
unfoldable pub matches : Regex → Bytes → Bool
unfolding deriv nullable
matches r [] = nullable r
matches r (c ∷ s) = matches (deriv c r) s

abbrev pub char : ℕ → Regex
char c = class (λ x. x == c)

abbrev pub literal : Bytes → Regex
literal [] = epsilon
literal (c ∷ []) = char c
literal (c ∷ s) = cat (char c) (literal s)

abbrev pub plus : Regex → Regex
plus r = cat r (star r)

abbrev pub optional : Regex → Regex
optional r = alt r epsilon

abbrev pub repeat : ℕ → Regex → Regex
repeat zero r = epsilon
repeat (suc n) r = cat r (repeat n r)
