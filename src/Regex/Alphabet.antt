-- ===== src/Regex/Alphabet.antt =====
-- A text that matches is made of the bytes of the expression's classes.
use kernelbuild_buildkit.Common.{
  ℕ, Bool, true, false, ◌&&◌, ◌||◌, [], ◌∷◌, ◌≡◌, refl, arith, inl, inr, Bool-cases, Bytes, every,
}
use kernelbuild_buildkit.Regex.{
  Regex, empty, epsilon, class, cat, alt, star, nullable, cat_small, alt_small, deriv, matches,
}

-- The bytes that the expression's classes hold.
unfoldable pub alphabet : Regex → ℕ → Bool
alphabet empty x = false
alphabet epsilon x = false
alphabet (class p) x = p x
alphabet (cat r s) x = alphabet r x || alphabet s x
alphabet (alt r s) x = alphabet r x || alphabet s x
alphabet (star r) x = alphabet r x

-- Expressions that match nothing, as far as their shape shows it.
void : Regex → Bool
void empty = true
void epsilon = false
void (class p) = false
void (cat r s) = void r
void (alt r s) = void r && void s
void (star r) = false

nullable-void : (r : Regex) → void r ≡ true → nullable r ≡ false
unfolding void nullable
nullable-void empty h = refl
nullable-void epsilon h = cc
nullable-void (class p) h = refl
nullable-void (cat r s) h = ground (arith, nullable-void r)
nullable-void (alt r s) h = ground (arith, nullable-void r, nullable-void s)
nullable-void (star r) h = cc

void-cat_small : (r s : Regex) → void r ≡ true → void (cat_small r s) ≡ true
unfolding void
void-cat_small empty s h = refl
void-cat_small epsilon s h = cc
void-cat_small _ s h = h

void-alt_small : (r s : Regex) → void r ≡ true → void s ≡ true → void (alt_small r s) ≡ true
unfolding void
void-alt_small empty s h k = k
void-alt_small epsilon s h k = cc
void-alt_small (class p) s h k = cc
void-alt_small (cat r t) empty h k = h
void-alt_small (cat r t) _ h k = ground arith
void-alt_small (alt r t) empty h k = h
void-alt_small (alt r t) _ h k = ground arith
void-alt_small (star r) s h k = cc

void-deriv_of_void : (c : ℕ) (r : Regex) → void r ≡ true → void (deriv c r) ≡ true
unfolding deriv void
void-deriv_of_void c empty h = refl
void-deriv_of_void c epsilon h = cc
void-deriv_of_void c (class p) h = cc
void-deriv_of_void c (cat r s) h =
    rw (nullable-void r h) (void-cat_small (deriv c r) s (void-deriv_of_void c r h))
void-deriv_of_void c (alt r s) h =
    void-alt_small (deriv c r) (deriv c s) (void-deriv_of_void c r (ground arith))
      (void-deriv_of_void c s (ground arith))
void-deriv_of_void c (star r) h = cc

matches-void : (r : Regex) (s : Bytes) → void r ≡ true → matches r s ≡ false
unfolding matches
matches-void r [] h = nullable-void r h
matches-void r (c ∷ s) h = matches-void (deriv c r) s (void-deriv_of_void c r h)

-- A byte of no class leaves nothing to match.
void-deriv : (c : ℕ) (r : Regex) → alphabet r c ≡ false → void (deriv c r) ≡ true
unfolding deriv alphabet void
void-deriv c empty h = refl
void-deriv c epsilon h = refl
void-deriv c (class p) h = rw h
void-deriv c (cat r s) h =
    let first : void (cat_small (deriv c r) s) ≡ true =
      void-cat_small (deriv c r) s (void-deriv c r (ground arith)) in
    elim (Bool-cases (nullable r)) [
      | inl n ↦ rw n (
          void-alt_small (cat_small (deriv c r) s) (deriv c s) first
            (void-deriv c s (ground arith)))
      | inr n ↦ rw n first
    ]
void-deriv c (alt r s) h =
    void-alt_small (deriv c r) (deriv c s) (void-deriv c r (ground arith))
      (void-deriv c s (ground arith))
void-deriv c (star r) h = void-cat_small (deriv c r) (star r) (void-deriv c r h)

alphabet-cat_small :
    (r s : Regex) (x : ℕ)
    → alphabet (cat_small r s) x ≡ true
    → (alphabet r x || alphabet s x) ≡ true
unfolding alphabet
alphabet-cat_small empty s x e = cc
alphabet-cat_small epsilon s x e = e
alphabet-cat_small _ s x e = e

alphabet-alt_small :
    (r s : Regex) (x : ℕ)
    → alphabet (alt_small r s) x ≡ true
    → (alphabet r x || alphabet s x) ≡ true
unfolding alphabet
alphabet-alt_small empty s x e = e
alphabet-alt_small epsilon empty x e = e
alphabet-alt_small epsilon _ x e = e
alphabet-alt_small (class p) empty x e = ground arith
alphabet-alt_small (class p) _ x e = e
alphabet-alt_small (cat a b) empty x e = ground arith
alphabet-alt_small (cat a b) _ x e = e
alphabet-alt_small (alt a b) empty x e = ground arith
alphabet-alt_small (alt a b) _ x e = e
alphabet-alt_small (star a) empty x e = ground arith
alphabet-alt_small (star a) _ x e = e

-- The derivative has no class that the expression has not.
alphabet-deriv : (c : ℕ) (r : Regex) (x : ℕ) → alphabet (deriv c r) x ≡ true → alphabet r x ≡ true
unfolding deriv alphabet
alphabet-deriv c empty x e = e
alphabet-deriv c epsilon x e = cc
alphabet-deriv c (class p) x e = ground arith
alphabet-deriv c (cat r s) x e = ground (
  arith,
  alphabet-cat_small (deriv c r) s x,
  alphabet-alt_small (cat_small (deriv c r) s) (deriv c s) x,
  alphabet-deriv c r x,
  alphabet-deriv c s x,
)
alphabet-deriv c (alt r s) x e = ground (
  arith,
  alphabet-alt_small (deriv c r) (deriv c s) x,
  alphabet-deriv c r x,
  alphabet-deriv c s x,
)
alphabet-deriv c (star r) x e =
    ground (arith, alphabet-cat_small (deriv c r) (star r) x, alphabet-deriv c r x)

-- Every byte of a text that matches is in a class of the expression.
pub matches-every :
    (r : Regex) (q : ℕ → Bool) (s : Bytes)
    → ((x : ℕ) → alphabet r x ≡ true → q x ≡ true)
    → matches r s ≡ true
    → every q s ≡ true
unfolding matches
matches-every r q [] h m = refl
matches-every r q (c ∷ s) h m = elim (Bool-cases (alphabet r c)) [
  | inl e ↦
      let rest : every q s ≡ true =
        matches-every (deriv c r) q s (λ x k. h x (alphabet-deriv c r x k)) m in
      let first : q c ≡ true = h c e in rw (first, rest)
  | inr e ↦ let f = matches-void (deriv c r) s (void-deriv c r e) in cc
]

-- Nothing matches the empty expression.
pub matches-empty : (s : Bytes) → matches empty s ≡ false
unfolding matches
matches-empty [] = refl
matches-empty (c ∷ s) = matches-empty s
