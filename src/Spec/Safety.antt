-- ===== src/Spec/Safety.antt =====
-- What a Spec that `Validate` accepts promises to the code behind it: every value that travels as
-- an environment variable, a line of the seed secret or a file name is one printable token.
use kernelbuild_buildkit.Common.{
  ℕ, zero, suc, Bool, true, false, not, ◌&&◌, ◌||◌, List, [], ◌∷◌, ◌≡◌, refl, arith, Bytes,
  is_empty, every, is_graphic, ok, reject, >>-eq-ok, if◌then◌else◌,
}
use kernelbuild_buildkit.Regex.{
  Regex, empty, epsilon, class, star, repeat, cat_small, matches, deriv, nullable,
}
use kernelbuild_buildkit.Regex.Alphabet.{alphabet, matches-every, matches-empty}
use kernelbuild_buildkit.Spec.{Spec}
use kernelbuild_buildkit.Spec.Patterns.{
  is_alnum, is_name_byte, is_hex_digit, version_re, file_re, prefix_re, sha256_re, base_make_re,
  cross_re, epoch_re, seed_url_re, image_ref_re, proxy_re, no_proxy_re, token_re,
}
use kernelbuild_buildkit.Spec.Validate.{
  has_dots, is_file, is_base_make, check_base_make, validate_names, validate_source, validate_seed,
  validate_network, is_image_ref, is_target, check_targets, validate_images, validate,
}

abbrev pub IsToken : Bytes → Type 0
IsToken s = every is_graphic s ≡ true

-- An expression over graphic bytes matches tokens only.
abbrev pub Graphic : Regex → Type 0
Graphic r = (x : ℕ) → alphabet r x ≡ true → is_graphic x ≡ true

pub IsToken-of : (r : Regex) (s : Bytes) → Graphic r → matches r s ≡ true → IsToken s
IsToken-of r s g m = matches-every r is_graphic s g m

pub version_re-Graphic : Graphic version_re
unfolding alphabet version_re
version_re-Graphic x e = ground arith

pub file_re-Graphic : Graphic file_re
unfolding alphabet file_re
file_re-Graphic x e = ground arith

pub prefix_re-Graphic : Graphic prefix_re
unfolding alphabet prefix_re
prefix_re-Graphic x e = ground arith

pub epoch_re-Graphic : Graphic epoch_re
unfolding alphabet epoch_re
epoch_re-Graphic x e = ground arith

pub cross_re-Graphic : Graphic cross_re
unfolding alphabet cross_re
cross_re-Graphic x e = ground arith

pub seed_url_re-Graphic : Graphic seed_url_re
unfolding alphabet seed_url_re
seed_url_re-Graphic x e = ground arith

image_ref_re-Graphic : Graphic image_ref_re
unfolding alphabet image_ref_re
image_ref_re-Graphic x e = ground arith

pub proxy_re-Graphic : Graphic proxy_re
unfolding alphabet proxy_re
proxy_re-Graphic x e = ground arith

pub no_proxy_re-Graphic : Graphic no_proxy_re
unfolding alphabet no_proxy_re
no_proxy_re-Graphic x e = e

pub token_re-Graphic : Graphic token_re
unfolding alphabet token_re
token_re-Graphic x e = ground arith

alphabet-repeat : (n : ℕ) (r : Regex) (x : ℕ) → alphabet (repeat n r) x ≡ true → alphabet r x ≡ true
unfolding alphabet
alphabet-repeat zero r x e = cc
alphabet-repeat (suc n) r x e = ground (arith, alphabet-repeat n r x)

pub sha256_re-Graphic : Graphic sha256_re
unfolding alphabet sha256_re
sha256_re-Graphic x e = ground (arith, alphabet-repeat 64 (class is_hex_digit) x e)

pub IsToken-of_empty : (s : Bytes) → is_empty s ≡ true → IsToken s
IsToken-of_empty [] h = refl
IsToken-of_empty (c ∷ s) h = cc

pub is_file-IsToken : (s : Bytes) → is_file s ≡ true → IsToken s
unfolding is_file
is_file-IsToken s h = IsToken-of file_re s file_re-Graphic (ground arith)

pub is_image_ref-IsToken : (s : Bytes) → is_image_ref s ≡ true → IsToken s
unfolding is_image_ref
is_image_ref-IsToken s h = IsToken-of image_ref_re s image_ref_re-Graphic (ground arith)

base_make_re-name : (x : ℕ) → alphabet base_make_re x ≡ true → is_name_byte x ≡ true
unfolding alphabet base_make_re
base_make_re-name x e = ground arith

is_base_make-name : (s : Bytes) → is_base_make s ≡ true → every is_name_byte s ≡ true
unfolding is_base_make
is_base_make-name s h = matches-every base_make_re is_name_byte s base_make_re-name (ground arith)

-- A word that make cannot take for an option: it begins with a letter or a digit.
abbrev pub starts_plain : Bytes → Bool
starts_plain [] = false
starts_plain (c ∷ s) = is_alnum c

-- A plain config target: such a word, made of name bytes, without "..".
abbrev pub is_plain_target : Bytes → Bool
is_plain_target t = starts_plain t && (every is_name_byte t && not (has_dots t))

class_first :
    (b : Bool) (r : Regex) (s : Bytes)
    → matches (cat_small (if b then epsilon else empty) r) s ≡ true
    → b ≡ true
class_first true r s h = refl
class_first false r s h = let none_left = matches-empty s in cc

base_make_re-starts_plain : (s : Bytes) → matches base_make_re s ≡ true → starts_plain s ≡ true
unfolding matches deriv base_make_re nullable
base_make_re-starts_plain [] h = ground arith
base_make_re-starts_plain (c ∷ s) h = class_first (is_alnum c) (star (class is_name_byte)) s h

is_base_make-plain : (s : Bytes) → is_base_make s ≡ true → is_plain_target s ≡ true
unfolding is_base_make
is_base_make-plain s h = ground (arith, is_base_make-name s, base_make_re-starts_plain s)

pub check_base_make-every :
    (toks : List Bytes) → check_base_make toks ≡ ok tt → every is_plain_target toks ≡ true
unfolding check_base_make
check_base_make-every [] h = refl
check_base_make-every (t ∷ ts) h = ground (arith, is_base_make-plain t, check_base_make-every ts)

pub check_targets-every : (ts : List Bytes) → check_targets ts ≡ ok tt → every is_target ts ≡ true
unfolding check_targets
check_targets-every [] h = refl
check_targets-every (t ∷ ts) h = ground (arith, check_targets-every ts)

-- The parts of an accepted Spec, each with the checks that it passed.
pub validate-parts :
    (s : Spec)
    → validate s ≡ ok tt
    → (validate_names s ≡ ok tt)
      × (validate_source s ≡ ok tt)
      × (validate_seed s ≡ ok tt)
      × (validate_network s ≡ ok tt)
      × (validate_images s ≡ ok tt)
unfolding validate
validate-parts s h =
    let (names, h₁) = >>-eq-ok (validate_names s) _ h in
    let (source, h₂) = >>-eq-ok (validate_source s) _ h₁ in
    let (seed, h₃) = >>-eq-ok (validate_seed s) _ h₂ in
    let (network, images) = >>-eq-ok (validate_network s) _ h₃ in
    (names, source, seed, network, images)

-- What a check lets through: a test that fails, and a test that a non-empty value passes.
pub not_rejected {ℓ} : {E : Type ℓ} (b : Bool) (e : E) → reject (not b) e ≡ ok tt → b ≡ true
not_rejected true e h = refl
not_rejected false e h = cc

pub unless_rejected {ℓ} :
    {E : Type ℓ} (b c : Bool) (e : E) → reject (not b && not c) e ≡ ok tt → (b || c) ≡ true
unless_rejected true c e h = refl
unless_rejected false true e h = refl
unless_rejected false false e h = cc

pub optional-IsToken :
    (r : Regex) (s : Bytes) → Graphic r → (is_empty s || matches r s) ≡ true → IsToken s
optional-IsToken r s g h = ground (arith, IsToken-of_empty s, IsToken-of r s g)

pub optional_file : (s : Bytes) → (not (is_empty s) && not (is_file s)) ≡ false → IsToken s
optional_file s h = ground (arith, IsToken-of_empty s, is_file-IsToken s)

pub optional_file_dots :
    (s : Bytes)
    → (not (is_empty s) && not (is_file s)) ≡ false
    → (is_empty s || not (has_dots s)) ≡ true
unfolding is_file
optional_file_dots s h = ground arith
