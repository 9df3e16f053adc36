-- ===== src/Step/Expect/Symbols.antt =====
-- The symbols that `validateExpectations` finds set, and the lines that set them.
use kernelbuild_buildkit.Common.{
  ℕ, ◌==◌, Bool, true, false, not, ◌&&◌, ◌||◌, List, [], ◌∷◌, ◌++◌, ◌≡◌, refl, sym, ap, ◌∙◌, arith,
  Option, none, some, Bytes, codes, beq, beq_iff, beq_refl, has_prefix, cut, cut-append, break_at,
  member, every, Bool-cases, inl, inr,
}
use mathlib.Core.Bool.{false≢true}
use kernelbuild_buildkit.Regex.{Regex, class, cat, char, plus, deriv, nullable, matches}
use kernelbuild_buildkit.Regex.Alphabet.{alphabet, matches-every, matches-empty}
use kernelbuild_buildkit.Step.Expect.{
  prefixed, is_symbol_byte, expect_sym_re, is_on_value, turns_on, symbols_on,
}

-- CONFIG_X is =y or =m: one of the two lines is there.
abbrev pub is_on : List Bytes → Bytes → Bool
is_on lines x = member (x ++ codes "=y") lines || member (x ++ codes "=m") lines

same_truth : (a b : Bool) → (a ≡ true → b ≡ true) → (b ≡ true → a ≡ true) → a ≡ b
same_truth true b h k = sym (h refl)
same_truth false true h k = k refl
same_truth false false h k = refl

matches-char :
    (c : ℕ) (r : Regex) (d : ℕ) (s : Bytes)
    → matches (cat (char c) r) (d ∷ s) ≡ ((d == c) && matches r s)
unfolding matches deriv nullable
matches-char c r d s = elim (Bool-cases (d == c)) [
  | inl e ↦ rw e refl
  | inr e ↦ rw e (matches-empty s)
]

absurd_prefix : {A : Type 0} → (r : Regex) (c : ℕ) → matches (cat (char c) r) [] ≡ true → A
unfolding matches nullable
absurd_prefix r c h = absurd (false≢true h)

matches-prefixed :
    (p : Bytes) (r : Regex) (s : Bytes) → matches (prefixed p r) s ≡ true → has_prefix s p ≡ true
unfolding has_prefix
matches-prefixed [] r s h = refl
matches-prefixed (c ∷ p) r [] h = absurd_prefix (prefixed p r) c h
matches-prefixed (c ∷ p) r (d ∷ s) h =
    ground (arith, matches-char c (prefixed p r) d s, matches-prefixed p r s)

symbol-plain : (x : Bytes) → matches expect_sym_re x ≡ true → every (λ c. not (c == b'=')) x ≡ true
unfolding alphabet expect_sym_re
symbol-plain x h = matches-every expect_sym_re (λ c. not (c == b'=')) x (λ c k. ground arith) h

symbol-prefix : (x : Bytes) → matches expect_sym_re x ≡ true → has_prefix x (codes "CONFIG_") ≡ true
unfolding expect_sym_re
symbol-prefix x h = matches-prefixed (codes "CONFIG_") (plus (class is_symbol_byte)) x h

-- `Cut` takes a text apart without a loss.
cut-join : (b : ℕ) (l v : Bytes) → (cut b l).1 ≡ some v → l ≡ (cut b l).0 ++ (b ∷ v)
unfolding break_at
cut-join b [] v h = cc
cut-join b (c ∷ l) v h = ground (arith, cut-join b l v)

on_line :
    (x l : Bytes) (o : Option Bytes)
    → (cut b'=' l).1 ≡ o
    → (cut b'=' l).0 ≡ x
    → is_on_value o ≡ true
    → (beq l (x ++ codes "=y") || beq l (x ++ codes "=m")) ≡ true
on_line x l none h q k = absurd (false≢true k)
on_line x l (some v) h q k =
    let whole : (w : Bytes) → beq v w ≡ true → l ≡ x ++ (b'=' ∷ w) = λ w e.
      cut-join b'=' l v h
      ∙ (ap (λ a. a ++ (b'=' ∷ v)) q ∙ ap (λ a. x ++ (b'=' ∷ a)) ((beq_iff v w).0 e)) in
    let yes = whole (codes "y") in
    let modular = whole (codes "m") in
    ground (arith, beq_iff l (x ++ codes "=y"), beq_iff l (x ++ codes "=m"), yes, modular)

line_on :
    (x l v : Bytes)
    → matches expect_sym_re x ≡ true
    → is_on_value (some v) ≡ true
    → l ≡ x ++ (b'=' ∷ v)
    → (turns_on (cut b'=' l) && beq (cut b'=' l).0 x) ≡ true
unfolding turns_on
line_on x l v h k e =
    rw (e, cut-append b'=' x v (symbol-plain x h), symbol-prefix x h, beq_refl x) (ground arith)

-- A line turns the symbol on just when it is one of the two.
turns_on-line :
    (x l : Bytes)
    → matches expect_sym_re x ≡ true
    → (turns_on (cut b'=' l) && beq (cut b'=' l).0 x)
      ≡ (beq l (x ++ codes "=y") || beq l (x ++ codes "=m"))
unfolding turns_on beq
turns_on-line x l h =
    same_truth _ _
      (λ k.
        on_line x l (cut b'=' l).1 refl ((beq_iff (cut b'=' l).0 x).0 (ground arith))
          (ground arith))
      (λ k. elim (Bool-cases (beq l (x ++ codes "=y"))) [
        | inl e ↦ line_on x l (codes "y") h refl ((beq_iff l (x ++ codes "=y")).0 e)
        | inr e ↦ line_on x l (codes "m") h refl ((beq_iff l (x ++ codes "=m")).0 (ground arith))
      ])

-- The set of `validateExpectations` holds a symbol just when .config says that it is =y or =m.
pub member-symbols_on :
    (x : Bytes) (lines : List Bytes)
    → matches expect_sym_re x ≡ true
    → member x (symbols_on lines) ≡ is_on lines x
unfolding symbols_on member
member-symbols_on x [] h = refl
member-symbols_on x (l ∷ ls) h = elim (Bool-cases (turns_on (cut b'=' l))) [
  | inl e ↦ rw e (ground (arith, turns_on-line x l, member-symbols_on x ls))
  | inr e ↦ rw e (ground (arith, turns_on-line x l, member-symbols_on x ls))
]
