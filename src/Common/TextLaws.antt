-- ===== src/Common/TextLaws.antt =====
-- What the proofs use of the text functions.
use Prim.Native.Nat.{ℕ, zero, suc}
use mathlib.Core.Bool.{true, not}
use mathlib.Core.List.{List, [], ◌∷◌, ◌++◌, reverse, reverse-reverse}
use mathlib.Core.Logic.{◌↔◌}
use mathlib.Core.Option.{some}
use mathlib.Core.Path.{◌≡◌, refl}
use native.Mathlib.Omega.{arith}
use kernelbuild_buildkit.Common.Tests.{◌==◌}
use kernelbuild_buildkit.Common.Lists.{length, every, every-reverse}
use kernelbuild_buildkit.Common.Text.{
  Bytes, beq, break_at, cut, split, join, space_width, space_width_rev, trim_front, trim_left,
  trim_right, trim_space, is_graphic,
}

pub beq_iff : (a b : Bytes) → (beq a b ≡ true) ↔ (a ≡ b)
unfolding beq
beq_iff (x ∷ a) (y ∷ b) = ground (arith, beq_iff a b)
beq_iff _ _ = ground arith

pub beq_refl : (a : Bytes) → beq a a ≡ true
beq_refl a = (beq_iff a a).1 refl

-- A text whose first byte is graphic has no white space in front.
space_width-graphic : (c : ℕ) (s : Bytes) → is_graphic c ≡ true → space_width (c ∷ s) ≡ 0
unfolding space_width
space_width-graphic c [] h = ground arith
space_width-graphic c (d ∷ []) h = ground arith
space_width-graphic c (d ∷ e ∷ s) h = ground arith

space_width_rev-graphic : (c : ℕ) (s : Bytes) → is_graphic c ≡ true → space_width_rev (c ∷ s) ≡ 0
unfolding space_width_rev
space_width_rev-graphic c [] h = ground arith
space_width_rev-graphic c (d ∷ []) h = ground arith
space_width_rev-graphic c (d ∷ e ∷ s) h = ground arith

trim_front-stop :
    (width : Bytes → ℕ) (fuel : ℕ) (s : Bytes) → width s ≡ 0 → trim_front width fuel s ≡ s
unfolding trim_front
trim_front-stop width zero s h = refl
trim_front-stop width (suc fuel) s h = rw (h, trim_front)

trim_front-graphic :
    (fuel : ℕ) (s : Bytes)
    → every is_graphic s ≡ true
    → (trim_front space_width fuel s ≡ s) × (trim_front space_width_rev fuel s ≡ s)
trim_front-graphic fuel [] h = (
  trim_front-stop space_width fuel [] (unfold space_width in refl),
  trim_front-stop space_width_rev fuel [] (unfold space_width_rev in refl),
)
trim_front-graphic fuel (c ∷ s) h =
    let g : is_graphic c ≡ true = ground arith in
    (
      trim_front-stop space_width fuel _ (space_width-graphic c s g),
      trim_front-stop space_width_rev fuel _ (space_width_rev-graphic c s g),
    )

-- `TrimSpace` leaves a graphic text alone.
pub trim_space-graphic : (s : Bytes) → every is_graphic s ≡ true → trim_space s ≡ s
unfolding trim_space trim_left trim_right
trim_space-graphic s h =
    let e : every is_graphic (reverse s) ≡ true = rw every-reverse h in
    rw ((trim_front-graphic (length s) s h).0)
      (rw ((trim_front-graphic (length s) (reverse s) e).1) (reverse-reverse s))

-- `Cut` finds the first separator.
pub cut-append :
    (b : ℕ) (s t : Bytes) → every (λ c. not (c == b)) s ≡ true → cut b (s ++ b ∷ t) ≡ (s, some t)
unfolding break_at
cut-append b [] t h = ground arith
cut-append b (c ∷ s) t h = ground (arith, cut-append b s t)

pub split-append :
    (b : ℕ) (s t : Bytes)
    → every (λ c. not (c == b)) s ≡ true
    → split b (s ++ b ∷ t) ≡ s ∷ split b t
unfolding split
split-append b [] t h = ground arith
split-append b (c ∷ s) t h = ground (arith, split-append b s t)

pub split-single : (b : ℕ) (s : Bytes) → every (λ c. not (c == b)) s ≡ true → split b s ≡ s ∷ []
unfolding split
split-single b [] h = refl
split-single b (c ∷ s) h = ground (arith, split-single b s)

-- `Split` undoes `Join` on words that do not hold the separator.
pub split-join :
    (b : ℕ) (w : Bytes) (ws : List Bytes)
    → every (every (λ c. not (c == b))) (w ∷ ws) ≡ true
    → split b (join (b ∷ []) (w ∷ ws)) ≡ w ∷ ws
unfolding join
split-join b w [] h = split-single b w (ground arith)
split-join b w (v ∷ ws) h =
    let e : every (λ c. not (c == b)) w ≡ true = ground arith in
    let f : every (every (λ c. not (c == b))) (v ∷ ws) ≡ true = ground arith in
    rw (split-append b w (join (b ∷ []) (v ∷ ws)) e) (rw (split-join b v ws f))
