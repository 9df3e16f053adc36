-- ===== src/Common/Text.antt =====
-- The functions of the Go packages strings and bytes that the program calls, on lists of bytes.
use Prim.Native.Char.{code}
use Prim.Native.Nat.{ℕ, zero, suc, ◌+◌, ◌/◌, ◌%◌}
use Prim.Native.String.{String}
use mathlib.Core.Bool.{Bool, true, false, ◌&&◌, ◌||◌}
use mathlib.Core.List.{List, [], ◌∷◌, ◌++◌, reverse}
use mathlib.Core.Option.{Option, none, some}
use kernelbuild_buildkit.Common.Tests.{◌==◌, leb, within, if◌then◌else◌}
use kernelbuild_buildkit.Common.Lists.{length, drop}

abbrev pub Bytes : Type 0
Bytes = List ℕ

-- The bytes of an ASCII literal. `String` has its own `[]` and `∷`.
abbrev pub codes : String → Bytes
codes String.[] = []
codes (String.◌∷◌ c s) = code c ∷ codes s

-- `==` on strings.
unfoldable pub beq : Bytes → Bytes → Bool
beq [] [] = true
beq (x ∷ xs) (y ∷ ys) = x == y && beq xs ys
beq _ _ = false

-- `len(s) == 0`
abbrev pub is_empty : Bytes → Bool
is_empty [] = true
is_empty (c ∷ s) = false

-- strings.HasPrefix(s, p)
unfoldable pub has_prefix : Bytes → Bytes → Bool
has_prefix s [] = true
has_prefix [] (p ∷ ps) = false
has_prefix (c ∷ s) (p ∷ ps) = c == p && has_prefix s ps

-- strings.HasSuffix(s, t)
unfoldable pub has_suffix : Bytes → Bytes → Bool
unfolding beq
has_suffix [] t = beq [] t
has_suffix (c ∷ s) t = beq (c ∷ s) t || has_suffix s t

-- strings.TrimPrefix(s, p)
unfoldable pub trim_prefix : Bytes → Bytes → Bytes
unfolding has_prefix
trim_prefix s p = if has_prefix s p then drop (length p) s else s

-- strings.Contains(s, t)
unfoldable pub contains : Bytes → Bytes → Bool
unfolding has_prefix
contains [] t = has_prefix [] t
contains (c ∷ s) t = has_prefix (c ∷ s) t || contains s t

-- What stands before the first byte that passes the test, and what stands after it if there is one:
-- strings.IndexAny and the slices on both sides of the index.
unfoldable pub break_at : (ℕ → Bool) → Bytes → Bytes × Option Bytes
break_at p [] = ([], none)
break_at p (c ∷ s) = if p c then ([], some s) else (c ∷ (break_at p s).0, (break_at p s).1)

-- strings.Cut(s, sep) at a separator of one byte.
abbrev pub cut : ℕ → Bytes → Bytes × Option Bytes
cut b = break_at (λ c. c == b)

abbrev pub cons_first : ℕ → List Bytes → List Bytes
cons_first c [] = (c ∷ []) ∷ []
cons_first c (w ∷ ws) = (c ∷ w) ∷ ws

-- strings.Split(s, sep) at a separator of one byte. It is never empty.
unfoldable pub split : ℕ → Bytes → List Bytes
split b [] = [] ∷ []
split b (c ∷ s) = let ws = split b s in if c == b then [] ∷ ws else cons_first c ws

-- strings.Join(ws, sep)
unfoldable pub join : Bytes → List Bytes → Bytes
join sep [] = []
join sep (w ∷ []) = w
join sep (w ∷ v ∷ ws) = w ++ (sep ++ join sep (v ∷ ws))

-- Whether a word is among the words.
unfoldable pub member : Bytes → List Bytes → Bool
unfolding beq
member w [] = false
member w (v ∷ vs) = beq v w || member w vs

-- The white space of one byte: tab, line feed, vertical tab, form feed, carriage return, space.
abbrev pub is_space : ℕ → Bool
is_space c = within 9 13 c || c == 32

-- The white space of two and of three bytes in UTF-8: U+0085 and U+00A0, then U+1680, U+2000 to
-- U+200A, U+2028, U+2029, U+202F, U+205F and U+3000.
abbrev pub is_space2 : ℕ → ℕ → Bool
is_space2 a b = a == 0xc2 && (b == 0x85 || b == 0xa0)

abbrev pub is_space3 : ℕ → ℕ → ℕ → Bool
is_space3 a b c =
    (a == 0xe1 && b == 0x9a && c == 0x80)
    || (a == 0xe2 && b == 0x80 && (within 0x80 0x8a c || c == 0xa8 || c == 0xa9 || c == 0xaf))
    || (a == 0xe2 && b == 0x81 && c == 0x9f)
    || (a == 0xe3 && b == 0x80 && c == 0x80)

-- The number of bytes of the white space at the front of `s`, 0 if there is none.
unfoldable pub space_width : Bytes → ℕ
space_width [] = 0
space_width (a ∷ []) = if is_space a then 1 else 0
space_width (a ∷ b ∷ []) = if is_space a then 1 else if is_space2 a b then 2 else 0
space_width (a ∷ b ∷ c ∷ s) =
    if is_space a then 1 else if is_space2 a b then 2 else if is_space3 a b c then 3 else 0

-- The same at the front of a reversed text.
unfoldable pub space_width_rev : Bytes → ℕ
space_width_rev [] = 0
space_width_rev (a ∷ []) = if is_space a then 1 else 0
space_width_rev (a ∷ b ∷ []) = if is_space a then 1 else if is_space2 b a then 2 else 0
space_width_rev (a ∷ b ∷ c ∷ s) =
    if is_space a then 1 else if is_space2 b a then 2 else if is_space3 c b a then 3 else 0

-- White space is taken off the front while there is some; each round takes at least a byte.
unfoldable pub trim_front : (Bytes → ℕ) → ℕ → Bytes → Bytes
trim_front width zero s = s
trim_front width (suc fuel) s = elim (width s) [
  | zero ↦ s
  | suc k ↦ trim_front width fuel (drop (suc k) s)
]

unfoldable pub trim_left : Bytes → Bytes
unfolding trim_front space_width
trim_left s = trim_front space_width (length s) s

unfoldable pub trim_right : Bytes → Bytes
unfolding trim_front space_width_rev
trim_right s = reverse (trim_front space_width_rev (length s) (reverse s))

-- strings.TrimSpace
unfoldable pub trim_space : Bytes → Bytes
unfolding trim_left trim_right
trim_space s = trim_right (trim_left s)

-- A word in the making is put in front of the words that follow, unless it is empty.
abbrev pub add_word : Bytes → List Bytes → List Bytes
add_word [] ws = ws
add_word (c ∷ w) ws = (c ∷ w) ∷ ws

-- strings.Fields: `word` is the word in the making. Each round takes at least a byte.
unfoldable pub fields_from : ℕ → Bytes → Bytes → List Bytes
unfolding space_width
fields_from zero word s = add_word word []
fields_from (suc fuel) word [] = add_word word []
fields_from (suc fuel) word (c ∷ s) = elim (space_width (c ∷ s)) [
  | zero ↦ fields_from fuel (word ++ c ∷ []) s
  | suc k ↦ add_word word (fields_from fuel [] (drop k s))
]

unfoldable pub fields : Bytes → List Bytes
unfolding fields_from
fields s = fields_from (length s) [] s

-- strings.FieldsFunc at a test on single bytes.
unfoldable pub fields_func_from : (ℕ → Bool) → Bytes → Bytes → List Bytes
fields_func_from p word [] = add_word word []
fields_func_from p word (c ∷ s) = elim (p c) [
  | true ↦ add_word word (fields_func_from p [] s)
  | false ↦ fields_func_from p (word ++ c ∷ []) s
]

unfoldable pub fields_func : (ℕ → Bool) → Bytes → List Bytes
unfolding fields_func_from
fields_func p s = fields_func_from p [] s

-- The last byte, if there is one: s[len(s)-1].
abbrev pub last : Bytes → Option ℕ
last [] = none
last (c ∷ []) = some c
last (c ∷ d ∷ s) = last (d ∷ s)

-- The text without its last byte.
abbrev pub init : Bytes → Bytes
init [] = []
init (c ∷ []) = []
init (c ∷ d ∷ s) = c ∷ init (d ∷ s)

-- Printable ASCII with no space, 0x21 to 0x7e.
abbrev pub is_graphic : ℕ → Bool
is_graphic c = within 0x21 0x7e c

abbrev pub is_digit : ℕ → Bool
is_digit c = within b'0' b'9' c

-- encoding/hex.EncodeToString and the verb %x: two digits for each byte.
abbrev pub hex_digit : ℕ → ℕ
hex_digit n = if leb n 9 then b'0' + n else 87 + n

unfoldable pub hex : Bytes → Bytes
hex [] = []
hex (c ∷ s) = hex_digit (c / 16) ∷ hex_digit (c % 16) ∷ hex s
