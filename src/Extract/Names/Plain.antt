-- ===== src/Extract/Names/Plain.antt =====
-- `stripComponents` on the names that a tarball of a source tree has.
use kernelbuild_buildkit.Common.{
  ℕ, ◌==◌, ltb, Bool, true, false, ◌&&◌, not, List, [], ◌∷◌, ◌++◌, ◌≡◌, ◌∙◌, refl, some, Bytes,
  codes, beq, is_empty, has_prefix, split, join, split-join, length, drop, every, every_mono,
  every-append, reverse, arith, length-append, append_assoc, append-nil,
}
use mathlib.Core.List.{reverse-reverse, reverse-cons}
use kernelbuild_buildkit.Extract.Names.{
  clean_parts, or_dot, clean, non_empty, clean_unless_empty, join_path, strip_components,
}

-- A component that stands for itself: not empty, not "." or "..", and without a slash.
abbrev pub is_plain : Bytes → Bool
is_plain c =
    not (is_empty c)
    && not (beq c (codes "."))
    && not (beq c (codes ".."))
    && every (λ b. not (b == b'/')) c

clean_parts-plain :
    (kept cs : List Bytes)
    → every is_plain cs ≡ true
    → clean_parts false kept cs ≡ reverse cs ++ kept
unfolding clean_parts
clean_parts-plain kept [] h = refl
clean_parts-plain kept (c ∷ cs) h =
    let e₁ : is_empty c ≡ false = ground arith in
    let e₂ : beq c (codes ".") ≡ false = ground arith in
    let e₃ : beq c (codes "..") ≡ false = ground arith in
    let e₄ : every is_plain cs ≡ true = ground arith in
    rw (e₁, e₂, e₃, clean_parts-plain (c ∷ kept) cs e₄, reverse-cons, append_assoc) refl

plain-no_slash : (c : Bytes) → is_plain c ≡ true → every (λ b. not (b == b'/')) c ≡ true
plain-no_slash c h = ground arith

join-first :
    (c : Bytes) (cs : List Bytes)
    → is_plain c ≡ true
    → (has_prefix (join (b'/' ∷ []) (c ∷ cs)) (b'/' ∷ []) ≡ false)
      × (or_dot (join (b'/' ∷ []) (c ∷ cs)) ≡ join (b'/' ∷ []) (c ∷ cs))
      × (clean_unless_empty (join (b'/' ∷ []) (c ∷ cs)) ≡ clean (join (b'/' ∷ []) (c ∷ cs)))
unfolding has_prefix join
join-first [] cs h = cc
join-first (b ∷ c) [] h = ground arith
join-first (b ∷ c) (d ∷ cs) h = ground arith

split-plain :
    (c : Bytes) (cs : List Bytes)
    → every is_plain (c ∷ cs) ≡ true
    → split b'/' (join (b'/' ∷ []) (c ∷ cs)) ≡ c ∷ cs
split-plain c cs h =
    split-join b'/' c cs
      (every_mono is_plain (every (λ b. not (b == b'/'))) (c ∷ cs) plain-no_slash h)

clean-plain :
    (c : Bytes) (cs : List Bytes)
    → every is_plain (c ∷ cs) ≡ true
    → clean (join (b'/' ∷ []) (c ∷ cs)) ≡ join (b'/' ∷ []) (c ∷ cs)
unfolding clean
clean-plain c cs h =
    let (e₁, e₂, _) = join-first c cs (ground arith) in
    rw (e₁, split-plain c cs h, clean_parts-plain [] (c ∷ cs) h, append-nil, reverse-reverse) e₂

non_empty-plain : (cs : List Bytes) → every is_plain cs ≡ true → non_empty cs ≡ cs
non_empty-plain [] h = refl
non_empty-plain (c ∷ cs) h =
    let e₁ : is_empty c ≡ false = ground arith in rw (e₁, non_empty-plain cs (ground arith)) refl

drop-append {ℓ} : {A : Type ℓ} (xs ys : List A) → drop (length xs) (xs ++ ys) ≡ ys
drop-append [] ys = refl
drop-append (x ∷ xs) ys = drop-append xs ys

join_path-plain :
    (c : Bytes) (cs : List Bytes)
    → every is_plain (c ∷ cs) ≡ true
    → join_path (c ∷ cs) ≡ join (b'/' ∷ []) (c ∷ cs)
unfolding join_path
join_path-plain c cs h =
    rw (non_empty-plain (c ∷ cs) h) ((join-first c cs (ground arith)).2 ∙ clean-plain c cs h)

strip-plain :
    (n : ℕ) (d : Bytes) (ds : List Bytes) (c : Bytes) (cs : List Bytes)
    → every is_plain (d ∷ ds) ≡ true
    → every is_plain (c ∷ cs) ≡ true
    → drop n (d ∷ ds) ≡ c ∷ cs
    → ltb n (length (d ∷ ds)) ≡ true
    → strip_components (join (b'/' ∷ []) (d ∷ ds)) n ≡ some (join (b'/' ∷ []) (c ∷ cs))
unfolding strip_components
strip-plain n d ds c cs h g k l =
    rw (clean-plain d ds h, split-plain d ds h, k, l, join_path-plain c cs g) refl

ltb-length : (xs ys : List Bytes) (y : Bytes) → ltb (length xs) (length (xs ++ y ∷ ys)) ≡ true
ltb-length xs ys y = let e = length-append xs (y ∷ ys) in ground arith

-- A name of plain components loses exactly the first `length parts` of them, where one is left.
pub strip_components-join :
    (parts : List Bytes) (c : Bytes) (cs : List Bytes)
    → every is_plain (parts ++ c ∷ cs) ≡ true
    → strip_components (join (b'/' ∷ []) (parts ++ c ∷ cs)) (length parts)
      ≡ some (join (b'/' ∷ []) (c ∷ cs))
strip_components-join [] c cs h = strip-plain 0 c cs c cs h h refl (ground arith)
strip_components-join (p ∷ parts) c cs h =
    strip-plain (length (p ∷ parts)) p (parts ++ c ∷ cs) c cs h
      (ground (arith, every-append is_plain (p ∷ parts) (c ∷ cs)))
      (drop-append (p ∷ parts) (c ∷ cs)) (ltb-length (p ∷ parts) cs c)
