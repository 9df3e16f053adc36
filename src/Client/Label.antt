-- ===== src/Client/Label.antt =====
-- A label is short, and one line unless the name begins with a line feed.
use kernelbuild_buildkit.Common.{
  ℕ, suc, zero, ◌==◌, ◌≤◌, ltb, Bool, true, false, not, [], ◌∷◌, ◌≡◌, refl, arith, Option, none,
  some, Bytes, codes, cut, break_at, every, every-append, take, length, length-append, Bool-cases,
  inl, inr,
}
use kernelbuild_buildkit.Client.{vertex_label, first_line, shorten}

abbrev pub one_line : Bytes → Bool
one_line = every (λ c. not (c == b'\n'))

length-take-le : (n : ℕ) (s : Bytes) → length (take n s) ≤ n
length-take-le zero s = omega arith
length-take-le (suc n) [] = omega arith
length-take-le (suc n) (c ∷ s) = omega (arith, length-take-le n s)

take-one_line : (n : ℕ) (s : Bytes) → one_line s ≡ true → one_line (take n s) ≡ true
take-one_line zero s h = refl
take-one_line (suc n) [] h = refl
take-one_line (suc n) (c ∷ s) h = ground (arith, take-one_line n s)

-- What `cut` finds: the text before is one line, and where nothing is found it is the whole.
cut-one_line :
    (s : Bytes) → (one_line (cut b'\n' s).0 ≡ true) × ((cut b'\n' s).1 ≡ none → (cut b'\n' s).0 ≡ s)
unfolding break_at
cut-one_line [] = (refl, λ e. refl)
cut-one_line (c ∷ s) = let (h, k) = cut-one_line s in (ground arith, λ e. ground arith)

abbrev pub starts_line : Bytes → Bool
starts_line [] = false
starts_line (c ∷ s) = c == b'\n'

first_line-one_line :
    (name : Bytes) → starts_line name ≡ false → one_line (first_line name (cut b'\n' name)) ≡ true
unfolding break_at
first_line-one_line [] h = refl
first_line-one_line (c ∷ s) h = rw h (by_rest (cut b'\n' s).1 refl)
  where
    by_rest :
        (o : Option Bytes)
        → (cut b'\n' s).1 ≡ o
        → one_line (first_line (c ∷ s) (c ∷ (cut b'\n' s).0, o)) ≡ true
    by_rest none e =
        let whole : (cut b'\n' s).0 ≡ s = (cut-one_line s).1 e in ground (arith, (cut-one_line s).0)
    by_rest (some r) e = ground (
      arith,
      (cut-one_line s).0,
      every-append (λ c. not (c == b'\n')) (cut b'\n' s).0 (codes " ..."),
    )

shorten_bounds :
    (s : Bytes) → (length (shorten s) ≤ 103) × (one_line s ≡ true → one_line (shorten s) ≡ true)
shorten_bounds s = elim (Bool-cases (ltb 100 (length s))) [
  | inl e ↦ rw e (
      (
        omega (arith, length-append (take 100 s) (codes "..."), length-take-le 100 s),
        λ h. rw (every-append, take-one_line 100 s h) refl,
      ))
  | inr e ↦ rw e ((ground arith, λ h. h))
]

-- The label of a vertex has at most 103 bytes, and no line feed, unless the name begins with one.
pub vertex_label_bounds :
    (name : Bytes)
    → (length (vertex_label name) ≤ 103)
      × (starts_line name ≡ false → one_line (vertex_label name) ≡ true)
unfolding vertex_label
vertex_label_bounds name =
    let (short, line) = shorten_bounds (first_line name (cut b'\n' name)) in
    (short, λ h. line (first_line-one_line name h))
