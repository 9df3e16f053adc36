-- ===== src/Step/Expect/Gate.antt =====
-- When the gate lets a .config through.
use kernelbuild_buildkit.Common.{
  ℕ, suc, Bool, true, false, not, ◌&&◌, ◌||◌, List, [], ◌∷◌, ◌≡◌, refl, ap, ◌∙◌, arith, Option,
  none, some, Bytes, codes, beq, beq_iff, is_empty, has_prefix, cut, split, member, trim_space,
  every, Result, ok, err, ◌>>=◌, Bool-cases, inl, inr,
}
use kernelbuild_buildkit.Regex.{matches}
use kernelbuild_buildkit.Step.Expect.{
  ExpectError, Verdict, skipped, met, missed, expect_sym_re, judge, judge_cut, judge_line, counted,
  judge_lines, finish, check_config, validate_expectations,
}
use kernelbuild_buildkit.Step.Expect.Symbols.{is_on, member-symbols_on}

-- What an expectation asks of the lines of .config.
abbrev asks : List Bytes → Bytes → Bytes → Bool
asks lines op arg =
    (beq op (codes "y") && (matches expect_sym_re arg && is_on lines arg))
    || ((beq op (codes "n") && (matches expect_sym_re arg && not (is_on lines arg)))
        || (beq op (codes "=") && member arg lines))

abbrev asks_cut : List Bytes → Bytes × Option Bytes → Bool
asks_cut lines (op, none) = false
asks_cut lines (op, some arg) = not (is_empty (trim_space arg)) && asks lines op (trim_space arg)

-- A line of /kernel.expect that lets the .config through: a blank one, a comment, or an expectation
-- that holds.
abbrev pub passes : List Bytes → Bytes → Bool
passes lines raw =
    (is_empty (trim_space raw) || has_prefix (trim_space raw) (codes "#"))
    || asks_cut lines (cut b' ' (trim_space raw))

abbrev pub is_ok : {E A : Type 0} → Result E A → Bool
is_ok (ok a) = true
is_ok (err e) = false

abbrev is_good : Result ExpectError Verdict → Bool
is_good (ok skipped) = true
is_good (ok met) = true
is_good (ok (missed op arg)) = false
is_good (err e) = false

judge-asks :
    (lines : List Bytes) (i : ℕ) (op arg : Bytes)
    → is_good (judge lines i op arg) ≡ asks lines op arg
unfolding judge beq
judge-asks lines i op arg = ground (
  arith,
  member-symbols_on arg lines,
  beq_iff op (codes "y"),
  beq_iff op (codes "n"),
  beq_iff op (codes "="),
)

judge_cut-asks :
    (lines : List Bytes) (i : ℕ) (l : Bytes) (q : Bytes × Option Bytes)
    → is_good (judge_cut lines i l q) ≡ asks_cut lines q
judge_cut-asks lines i l (op, none) = refl
judge_cut-asks lines i l (op, some arg) = elim (Bool-cases (is_empty (trim_space arg))) [
  | inl e ↦ rw e refl
  | inr e ↦ rw e (judge-asks lines i op (trim_space arg))
]

judge_line-passes :
    (lines : List Bytes) (i : ℕ) (raw : Bytes) → is_good (judge_line lines i raw) ≡ passes lines raw
unfolding judge_line
judge_line-passes lines i raw =
    elim (Bool-cases (is_empty (trim_space raw) || has_prefix (trim_space raw) (codes "#"))) [
      | inl e ↦ rw e refl
      | inr e ↦ rw e (judge_cut-asks lines i (trim_space raw) (cut b' ' (trim_space raw)))
    ]

next :
    (r : Result ExpectError Verdict) (rest : Result ExpectError (ℕ × List (Bytes × Bytes)))
    → is_ok ((r >>= λ v. rest >>= λ q. ok (counted v q)) >>= finish)
      ≡ (is_good r && is_ok (rest >>= finish))
next (ok skipped) (ok (n, [])) = refl
next (ok skipped) (ok (n, b ∷ bad)) = refl
next (ok met) (ok (n, [])) = refl
next (ok met) (ok (n, b ∷ bad)) = refl
next (ok (missed op arg)) (ok (n, bad)) = refl
next (ok skipped) (err e) = refl
next (ok met) (err e) = refl
next (ok (missed op arg)) (err e) = refl
next (err e) rest = refl

judge_lines-every :
    (lines : List Bytes) (i : ℕ) (ls : List Bytes)
    → is_ok (judge_lines lines i ls >>= finish) ≡ every (passes lines) ls
unfolding judge_lines
judge_lines-every lines i [] = refl
judge_lines-every lines i (l ∷ ls) =
    next (judge_line lines i l) (judge_lines lines (suc i) ls)
    ∙ (ap (λ b. b && is_ok (judge_lines lines (suc i) ls >>= finish)) (judge_line-passes lines i l)
        ∙ ap (λ b. passes lines l && b) (judge_lines-every lines (suc i) ls))

-- The gate lets a .config through exactly when every line of /kernel.expect passes: it is blank or a
-- comment, or it says "y" of a symbol that one of the lines CONFIG_X=y and CONFIG_X=m of .config
-- sets, "n" of a symbol that neither sets, or "=" of a line that is there.
pub validate_expectations-passes :
    (raw cfg : Bytes)
    → is_ok (validate_expectations (some raw) (some cfg))
      ≡ every (passes (split b'\n' cfg)) (split b'\n' raw)
unfolding validate_expectations check_config
validate_expectations-passes raw cfg = judge_lines-every (split b'\n' cfg) 1 (split b'\n' raw)
