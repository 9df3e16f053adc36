-- ===== src/Step/Expect.antt =====
-- `validateExpectations` (cmd/kbuild-step/expect.go): the gate of /kernel.expect over .config.
pub mod Symbols
pub mod Gate
use kernelbuild_buildkit.Common.{
  ℕ, suc, ◌==◌, ◌+◌, Bool, true, false, not, ◌&&◌, ◌||◌, List, [], ◌∷◌, ◌++◌, Option, none, some,
  Bytes, codes, beq, is_empty, has_prefix, cut, break_at, split, member, trim_space, if◌then◌else◌,
  Result, ok, err, ◌>>=◌, within, is_digit,
}
use kernelbuild_buildkit.Regex.{Regex, class, cat, char, plus, matches}

pub data ExpectError : Type 0 where
  unreadable_config : ExpectError
  malformed : ℕ → Bytes → ExpectError
  not_a_symbol : ℕ → Bytes → ExpectError
  unknown_op : ℕ → Bytes → ExpectError
  -- the expectations that are not met, as they are printed, and how many there are of all
  not_met : List (Bytes × Bytes) → ℕ → ExpectError

-- [A-Z0-9_]
abbrev pub is_symbol_byte : ℕ → Bool
is_symbol_byte c = within b'A' b'Z' c || is_digit c || c == b'_'

abbrev pub prefixed : Bytes → Regex → Regex
prefixed [] r = r
prefixed (c ∷ p) r = cat (char c) (prefixed p r)

-- `expectSymRe`
unfoldable pub expect_sym_re : Regex
expect_sym_re = prefixed (codes "CONFIG_") (plus (class is_symbol_byte))

-- A line CONFIG_X=y or CONFIG_X=m.
abbrev pub is_on_value : Option Bytes → Bool
is_on_value none = false
is_on_value (some v) = beq v (codes "y") || beq v (codes "m")

unfoldable pub turns_on : Bytes × Option Bytes → Bool
unfolding has_prefix beq
turns_on (sym, val) = has_prefix sym (codes "CONFIG_") && is_on_value val

-- The map `set`: the symbols that are =y or =m.
unfoldable pub symbols_on : List Bytes → List Bytes
unfolding turns_on break_at
symbols_on [] = []
symbols_on (l ∷ ls) =
    let rest = symbols_on ls in if turns_on (cut b'=' l) then (cut b'=' l).0 ∷ rest else rest

-- What a line of the file comes to: nothing, or an expectation that is met or not.
pub data Verdict : Type 0 where
  skipped : Verdict
  met : Verdict
  missed : Bytes → Bytes → Verdict

abbrev judged : Bytes → Bytes → Bool → Verdict
judged op arg bad = if bad then missed op arg else met

-- `n++`, and the list of those that are not met.
abbrev pub counted : Verdict → ℕ × List (Bytes × Bytes) → ℕ × List (Bytes × Bytes)
counted skipped (n, bad) = (n, bad)
counted met (n, bad) = (suc n, bad)
counted (missed op arg) (n, bad) = (suc n, (op, arg) ∷ bad)

module _ (lines : List Bytes) where
  -- The switch on the operator.
  unfoldable pub judge : ℕ → Bytes → Bytes → Result ExpectError Verdict
  unfolding beq matches expect_sym_re symbols_on member
  judge i op arg =
      if beq op (codes "y") || beq op (codes "n")
      then (if not (matches expect_sym_re arg)
          then err (not_a_symbol i arg)
          else ok (
              judged op arg (
                if beq op (codes "y")
                then not (member arg (symbols_on lines))
                else member arg (symbols_on lines))))
      else if beq op (codes "=")
      then ok (judged op arg (not (member arg lines)))
      else err (unknown_op i op)

  abbrev pub judge_cut : ℕ → Bytes → Bytes × Option Bytes → Result ExpectError Verdict
  judge_cut i l (op, none) = err (malformed i l)
  judge_cut i l (op, some arg) =
      if is_empty (trim_space arg) then err (malformed i l) else judge i op (trim_space arg)

  unfoldable pub judge_line : ℕ → Bytes → Result ExpectError Verdict
  unfolding judge has_prefix trim_space break_at
  judge_line i raw =
      let l = trim_space raw in
      if is_empty l || has_prefix l (codes "#") then ok skipped else judge_cut i l (cut b' ' l)

  -- The loop: the number of expectations and those that are not met, of the lines from the i-th on.
  unfoldable pub judge_lines : ℕ → List Bytes → Result ExpectError (ℕ × List (Bytes × Bytes))
  unfolding judge_line
  judge_lines i [] = ok (0, [])
  judge_lines i (l ∷ ls) = do v ← judge_line i l; rest ← judge_lines (suc i) ls; ok (counted v rest)

abbrev pub finish : ℕ × List (Bytes × Bytes) → Result ExpectError ℕ
finish (n, []) = ok n
finish (n, b ∷ bad) = err (not_met (b ∷ bad) n)

unfoldable pub check_config : Bytes → Option Bytes → Result ExpectError ℕ
unfolding judge_lines split
check_config raw none = err unreadable_config
check_config raw (some cfg) = judge_lines (split b'\n' cfg) 1 (split b'\n' raw) >>= finish

-- `validateExpectations`, of the files /kernel.expect and .config; the result is the number of the
-- expectations.
unfoldable pub validate_expectations : Option Bytes → Option Bytes → Result ExpectError ℕ
unfolding check_config
validate_expectations none config = ok 0
validate_expectations (some raw) config = check_config raw config
