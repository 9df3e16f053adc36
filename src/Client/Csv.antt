-- ===== src/Client/Csv.antt =====
-- The record that encoding/csv's Reader reads first, with its default settings.
use kernelbuild_buildkit.Common.{
  ℕ, ◌==◌, List, [], ◌∷◌, reverse, if◌then◌else◌, Bytes, Result, ok, err,
}

pub data CsvError : Type 0 where
  no_record : CsvError
  bare_quote : CsvError
  open_quote : CsvError

-- Where the reader stands: before a field, in a plain or a quoted one, or behind a quote in a quoted one.
pub data Place : Type 0 where
  before plain quoted behind_quote : Place

-- What a byte comes to: a place and the field so far, the end of a field or of the record, or an error.
pub data Move : Type 0 where
  go : Place → Bytes → Move
  end_field : Bytes → Move
  end_record : Bytes → Move
  fail : CsvError → Move

-- A field is gathered in reverse.
unfoldable pub move : Place → Bytes → ℕ → Move
move before f c =
    if c == b'"'
    then go quoted f
    else if c == b','
    then end_field f
    else if c == b'\n'
    then end_record f
    else go plain (c ∷ f)
move plain f c =
    if c == b','
    then end_field f
    else if c == b'\n'
    then end_record f
    else if c == b'"'
    then fail bare_quote
    else go plain (c ∷ f)
move quoted f c = if c == b'"' then go behind_quote f else go quoted (c ∷ f)
move behind_quote f c =
    if c == b'"'
    then go quoted (b'"' ∷ f)
    else if c == b','
    then end_field f
    else if c == b'\n'
    then end_record f
    else fail open_quote

abbrev pub cons_field : Bytes → Result CsvError (List Bytes) → Result CsvError (List Bytes)
cons_field f (err e) = err e
cons_field f (ok fs) = ok (reverse f ∷ fs)

abbrev pub at_end : Place → Bytes → Result CsvError (List Bytes)
at_end quoted f = err open_quote
at_end _ f = ok (reverse f ∷ [])

unfoldable pub read_record : Place → Bytes → Bytes → Result CsvError (List Bytes)
unfolding move
read_record p f [] = at_end p f
read_record p f (c ∷ s) = elim (move p f c) [
  | go q g ↦ read_record q g s
  | end_field g ↦ cons_field g (read_record before [] s)
  | end_record g ↦ ok (reverse g ∷ [])
  | fail e ↦ err e
]

-- `readLine` takes the \r before a \n off, and the one at the very end.
unfoldable pub drop_returns : Bytes → Bytes
drop_returns [] = []
drop_returns (c ∷ []) = if c == b'\r' then [] else c ∷ []
drop_returns (c ∷ d ∷ s) =
    let rest = drop_returns (d ∷ s) in
    if c == b'\r' then (if d == b'\n' then rest else c ∷ rest) else c ∷ rest

-- Empty lines are skipped.
unfoldable pub skip_lines : Bytes → Bytes
skip_lines [] = []
skip_lines (c ∷ s) = let rest = skip_lines s in if c == b'\n' then rest else c ∷ s

abbrev pub read_first : Bytes → Result CsvError (List Bytes)
read_first [] = err no_record
read_first (c ∷ s) = read_record before [] (c ∷ s)

unfoldable pub read_csv : Bytes → Result CsvError (List Bytes)
unfolding read_record drop_returns skip_lines
read_csv text = read_first (skip_lines (drop_returns text))
