-- ===== src/Targets/Resolve.antt =====
-- Which TARGETS the step takes, and that it takes what an accepted Spec sends.
use kernelbuild_buildkit.Common.{
  ◌==◌, Bool, true, false, not, List, [], ◌∷◌, ◌≡◌, ◌↔◌, refl, arith, if◌then◌else◌, inl, inr,
  Bytes, codes, beq, is_empty, every, every_mono, split, split-join, join, ok, err, >>=-eq-ok,
  Bool-cases,
}
use kernelbuild_buildkit.Spec.{Spec, arch_or_default, targets_or_default, is_nil}
use kernelbuild_buildkit.Spec.Accepted.{validate-IsSafe}
use kernelbuild_buildkit.Spec.Validate.{is_target, validate}
use kernelbuild_buildkit.Targets.{
  Plan, no_targets, unknown_target, add_target, add_targets, no_plan, resolve_targets,
}
use kernelbuild_buildkit.Targets.Contract.{Extends, add_targets-known, is_target-cases}

add_target-unknown :
    (arch t : Bytes) (r : Plan) → is_target t ≡ false → add_target arch t r ≡ err (unknown_target t)
unfolding is_target add_target
add_target-unknown arch t r h = ground arith

add_targets-every :
    (arch : Bytes) (ts : List Bytes) (r q : Plan)
    → add_targets arch ts r ≡ ok q
    → every is_target ts ≡ true
unfolding add_targets
add_targets-every arch [] r q h = refl
add_targets-every arch (t ∷ ts) r q h = elim (Bool-cases (is_target t)) [
  | inl e ↦
      let (p, _, h₂) = >>=-eq-ok (add_target arch t r) (add_targets arch ts) h in
      rw (e, add_targets-every arch ts p q h₂)
  | inr e ↦ let refused = add_target-unknown arch t r e in cc
]

-- The step takes exactly the values of TARGETS that are not empty and list known tokens only. The
-- plan then has make build, in their order, what the tokens of TARGETS stand for on this architecture,
-- lifts exactly the files that they stand for, each to its place in /out, and wants the modules, the
-- configuration and the catalog exactly if their tokens are there.
pub resolve_targets_iff :
    (arch raw : Bytes)
    → ((q : Plan) × (resolve_targets arch raw ≡ ok q) × Extends arch (split b',' raw) no_plan q)
      ↔ ((is_empty raw ≡ false) × (every is_target (split b',' raw) ≡ true))
unfolding resolve_targets
resolve_targets_iff arch raw = (
  λ (q, h, _). by_empty (is_empty raw) q h,
  λ (full, known). rw full (add_targets-known arch (split b',' raw) no_plan known),
)
  where
    by_empty :
        (b : Bool) (q : Plan)
        → (if b then err no_targets else add_targets arch (split b',' raw) no_plan) ≡ ok q
        → (b ≡ false) × (every is_target (split b',' raw) ≡ true)
    by_empty true q h = cc
    by_empty false q h = (refl, add_targets-every arch (split b',' raw) no_plan q h)

abbrev no_comma : Bytes → Bool
no_comma = every (λ c. not (c == b','))

is_target-no_comma : (t : Bytes) → is_target t ≡ true → no_comma t ≡ true
is_target-no_comma t h = elim (is_target-cases t h) [
  | inl e ↦ rw e
  | inr (inl e) ↦ rw e
  | inr (inr (inl e)) ↦ rw e
  | inr (inr (inr (inl e))) ↦ rw e
  | inr (inr (inr (inr e))) ↦ rw e
]

is_target-is_empty : (t : Bytes) → is_target t ≡ true → is_empty t ≡ false
is_target-is_empty t h = elim (is_target-cases t h) [
  | inl e ↦ rw e
  | inr (inl e) ↦ rw e
  | inr (inr (inl e)) ↦ rw e
  | inr (inr (inr (inl e))) ↦ rw e
  | inr (inr (inr (inr e))) ↦ rw e
]

-- A list of known tokens, in two parts.
data Tokens : List Bytes → Type 0 where
  tokens : (t : Bytes) (ts : List Bytes) → every is_target (t ∷ ts) ≡ true → Tokens (t ∷ ts)

targets_or_default-Tokens :
    (s : Spec) → every is_target s.targets ≡ true → Tokens (targets_or_default s)
unfolding targets_or_default
targets_or_default-Tokens s h = by_targets s.targets h
  where
    by_targets :
        (ts : List Bytes)
        → every is_target ts ≡ true
        → Tokens (
            if not (is_nil ts)
            then ts
            else if beq (arch_or_default s) (codes "arm64")
            then codes "vmlinux" ∷ codes "image" ∷ []
            else codes "vmlinux" ∷ [])
    by_targets (t ∷ ts) k = tokens t ts k
    by_targets [] k = elim (Bool-cases (beq (arch_or_default s) (codes "arm64"))) [
      | inl e ↦ rw e (tokens (codes "vmlinux") (codes "image" ∷ []) (unfold is_target beq in refl))
      | inr e ↦ rw e (tokens (codes "vmlinux") [] (unfold is_target beq in refl))
    ]

join-is_empty :
    (t : Bytes) (ts : List Bytes)
    → is_empty t ≡ false
    → is_empty (join (b',' ∷ []) (t ∷ ts)) ≡ false
unfolding join
join-is_empty [] ts h = cc
join-is_empty (c ∷ t) [] h = refl
join-is_empty (c ∷ t) (u ∷ ts) h = refl

resolve-Tokens :
    (arch : Bytes) (ts : List Bytes)
    → Tokens ts
    → (q : Plan) × (resolve_targets arch (join (b',' ∷ []) ts) ≡ ok q) × Extends arch ts no_plan q
resolve-Tokens arch ts (tokens t us h) =
    let apart : split b',' (join (b',' ∷ []) (t ∷ us)) ≡ t ∷ us =
      split-join b',' t us (every_mono is_target no_comma (t ∷ us) is_target-no_comma h) in
    let full : is_empty (join (b',' ∷ []) (t ∷ us)) ≡ false =
      join-is_empty t us (is_target-is_empty t (ground arith)) in
    let known : every is_target (split b',' (join (b',' ∷ []) (t ∷ us))) ≡ true = rw apart h in
    rw apart at ((resolve_targets_iff arch (join (b',' ∷ []) (t ∷ us))).1 (full, known))

-- The step takes the TARGETS that are sent for an accepted Spec, and its plan is the one for the Spec's
-- own targets and architecture: it has make build what they stand for, in their order, lifts exactly
-- the files that they stand for, each to its place in /out, and wants the modules, the configuration
-- and the catalog exactly if they are among them.
pub resolve_targets-validate :
    (s : Spec)
    → validate s ≡ ok tt
    → (q : Plan) × (resolve_targets (arch_or_default s) (join (b',' ∷ []) (targets_or_default s))
        ≡ ok q)
      × Extends (arch_or_default s) (targets_or_default s) no_plan q
resolve_targets-validate s valid =
    let v = validate-IsSafe s valid in
    resolve-Tokens (arch_or_default s) (targets_or_default s)
      (targets_or_default-Tokens s v.images.targets_known)
