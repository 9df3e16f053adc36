-- ===== src/Targets/Modules.antt =====
-- `modulesEnabled` is a search for a whole line of the config.
use kernelbuild_buildkit.Common.{
  member, ℕ, ◌==◌, Bool, true, false, not, ◌&&◌, ◌||◌, List, [], ◌∷◌, ◌++◌, ◌≡◌, refl, arith, inl,
  inr, Bytes, codes, beq, every, split, cons_first, Bool-cases, has_prefix, contains,
}
use kernelbuild_buildkit.Targets.{modules_enabled}

-- All lines but the last one: those that end in a newline.
unfoldable pub but_last : List Bytes → List Bytes
but_last [] = []
but_last (w ∷ []) = []
but_last (w ∷ v ∷ ws) = w ∷ but_last (v ∷ ws)

first_is : Bytes → List Bytes → Bool
first_is l [] = false
first_is l (w ∷ ws) = beq w l

rest_of : List Bytes → List Bytes
rest_of [] = []
rest_of (w ∷ ws) = ws

abbrev no_newline : Bytes → Bool
no_newline = every (λ c. not (c == b'\n'))

split-cons : (s : Bytes) → (w : Bytes) × (ws : List Bytes) × (split b'\n' s ≡ w ∷ ws)
unfolding split
split-cons [] = ([], [], refl)
split-cons (c ∷ s) =
    let (w, ws, e) = split-cons s in
    elim (Bool-cases (c == b'\n')) [
      | inl n ↦ ([], w ∷ ws, rw (n, e))
      | inr o ↦ (c ∷ w, ws, rw (o, e))
    ]

-- A newline in front: the line before it is empty.
but_last-newline : (s : Bytes) → but_last (split b'\n' (b'\n' ∷ s)) ≡ [] ∷ but_last (split b'\n' s)
unfolding split
but_last-newline s = let (w, ws, e) = split-cons s in rw e (unfold but_last in refl)

first_is-cons_first :
    (c d : ℕ) (l : Bytes) (ws : List Bytes)
    → first_is (d ∷ l) (but_last (cons_first c ws)) ≡ (c == d && first_is l (but_last ws))
unfolding first_is but_last beq
first_is-cons_first c d l [] = ground arith
first_is-cons_first c d l (w ∷ []) = ground arith
first_is-cons_first c d l (w ∷ u ∷ us) = refl

first_is-nil : (c : ℕ) (ws : List Bytes) → first_is [] (but_last (cons_first c ws)) ≡ false
unfolding first_is but_last beq
first_is-nil c [] = refl
first_is-nil c (w ∷ []) = refl
first_is-nil c (w ∷ u ∷ us) = refl

rest_of-cons_first :
    (c : ℕ) (ws : List Bytes) → rest_of (but_last (cons_first c ws)) ≡ rest_of (but_last ws)
unfolding rest_of but_last
rest_of-cons_first c [] = refl
rest_of-cons_first c (w ∷ []) = refl
rest_of-cons_first c (w ∷ u ∷ us) = refl

split-newline : (s : Bytes) → split b'\n' (b'\n' ∷ s) ≡ [] ∷ split b'\n' s
unfolding split
split-newline s = refl

split-other :
    (c : ℕ) (s : Bytes) → (c == b'\n') ≡ false → split b'\n' (c ∷ s) ≡ cons_first c (split b'\n' s)
unfolding split
split-other c s h = rw h

-- A text begins with a line if that is its first line, newline included.
has_prefix-line :
    (s l : Bytes)
    → no_newline l ≡ true
    → has_prefix s (l ++ b'\n' ∷ []) ≡ first_is l (but_last (split b'\n' s))
unfolding has_prefix
has_prefix-line [] [] h = unfold first_is but_last split in refl
has_prefix-line [] (d ∷ l) h = unfold first_is but_last split in refl
has_prefix-line (c ∷ s) [] h = elim (Bool-cases (c == b'\n')) [
  | inl n ↦
      let e : c ≡ b'\n' = ground arith in
      rw e (rw (but_last-newline s) (unfold first_is beq in refl))
  | inr o ↦ rw (split-other c s o) (rw (first_is-nil c (split b'\n' s), o))
]
has_prefix-line (c ∷ s) (d ∷ l) h = elim (Bool-cases (c == b'\n')) [
  | inl n ↦
      let e : c ≡ b'\n' = ground arith in
      rw e (rw (but_last-newline s) (unfold first_is beq in ground arith))
  | inr o ↦
      rw (split-other c s o)
        (rw (first_is-cons_first c d l (split b'\n' s)) (rw (has_prefix-line s l (ground arith))))
]

first-or-rest :
    (l : Bytes) (ws : List Bytes) → (first_is l ws || member l (rest_of ws)) ≡ member l ws
unfolding first_is rest_of member
first-or-rest l [] = refl
first-or-rest l (w ∷ ws) = refl

contains-newline :
    (s l : Bytes) → contains (b'\n' ∷ s) (b'\n' ∷ l) ≡ (has_prefix s l || contains s (b'\n' ∷ l))
unfolding contains has_prefix
contains-newline s l = refl

contains-other :
    (c : ℕ) (s l : Bytes)
    → (c == b'\n') ≡ false
    → contains (c ∷ s) (b'\n' ∷ l) ≡ contains s (b'\n' ∷ l)
unfolding contains has_prefix
contains-other c s l h = ground arith

rest_of-cons : (w : Bytes) (ws : List Bytes) → rest_of (w ∷ ws) ≡ ws
unfolding rest_of
rest_of-cons w ws = refl

-- A later line stands between two newlines.
contains-line :
    (s l : Bytes)
    → no_newline l ≡ true
    → contains s (b'\n' ∷ (l ++ b'\n' ∷ [])) ≡ member l (rest_of (but_last (split b'\n' s)))
contains-line [] l h = unfold contains has_prefix rest_of but_last split member in refl
contains-line (c ∷ s) l h = elim (Bool-cases (c == b'\n')) [
  | inl n ↦
      let e : c ≡ b'\n' = ground arith in
      rw e (
        rw (contains-newline s (l ++ b'\n' ∷ []), but_last-newline s)
          (rw (rest_of-cons [] (but_last (split b'\n' s))) (
            rw (has_prefix-line s l h)
              (rw (contains-line s l h) (first-or-rest l (but_last (split b'\n' s)))))))
  | inr o ↦
      rw (contains-other c s (l ++ b'\n' ∷ []) o)
        (rw (split-other c s o) (rw (rest_of-cons_first c (split b'\n' s)) (contains-line s l h)))
]

-- Modules are enabled exactly if some line of the config, with its newline, is CONFIG_MODULES=y.
pub modules_enabled-member :
    (config : Bytes)
    → modules_enabled config ≡ member (codes "CONFIG_MODULES=y") (but_last (split b'\n' config))
unfolding modules_enabled
modules_enabled-member config = rw (has_prefix-line config (codes "CONFIG_MODULES=y") refl) (
    rw (contains-line config (codes "CONFIG_MODULES=y") refl)
      (first-or-rest (codes "CONFIG_MODULES=y") (but_last (split b'\n' config))))
