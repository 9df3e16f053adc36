-- ===== src/Targets/Contract.antt =====
-- The TARGETS that the frontend sends are the ones that the step takes.
use kernelbuild_buildkit.Common.{
  member, Bool, true, false, ◌||◌, List, [], ◌∷◌, ◌++◌, ◌≡◌, refl, arith, if◌then◌else◌, ◌⊎◌, inl,
  inr, Bytes, codes, beq, beq_iff, Bool-cases, every, ok, Option, none, some, sym, ap, ◌∙◌,
  append-nil, append_assoc,
}
use kernelbuild_buildkit.Spec.Validate.{is_target}
use kernelbuild_buildkit.Targets.{Plan, lift, set_artifact, add_image, add_target, add_targets}

-- What make is asked for by a token, and the file of the tree that it lifts to /out.
unfoldable pub made_for : Bytes → Bytes → List Bytes
unfolding beq
made_for arch t =
    if beq t (codes "vmlinux")
    then codes "vmlinux" ∷ []
    else if beq t (codes "image")
    then (if beq arch (codes "arm64") then codes "Image" ∷ [] else codes "bzImage" ∷ [])
    else if beq t (codes "modules")
    then codes "modules" ∷ []
    else []

abbrev pub boot_image : Bytes → Bytes × Bytes
boot_image arch =
    if beq arch (codes "arm64")
    then (codes "arch/arm64/boot/Image", codes "/out/Image")
    else (codes "arch/x86/boot/bzImage", codes "/out/bzImage")

unfoldable pub file_for : Bytes → Bytes → Option (Bytes × Bytes)
unfolding beq
file_for arch t =
    if beq t (codes "vmlinux")
    then some (codes "vmlinux", codes "/out/vmlinux")
    else if beq t (codes "image")
    then some (boot_image arch)
    else none

unfoldable pub all_made : Bytes → List Bytes → List Bytes
unfolding made_for
all_made arch [] = []
all_made arch (t ∷ ts) = made_for arch t ++ all_made arch ts

abbrev pub over : Option (Bytes × Bytes) → Bytes → Option Bytes → Option Bytes
over none src o = o
over (some (s, d)) src o = if beq s src then some d else o

-- Where the tokens want a file of the tree to go.
unfoldable pub place_of : Bytes → Bytes → List Bytes → Option Bytes → Option Bytes
unfolding file_for beq
place_of arch src [] o = o
place_of arch src (t ∷ ts) o = place_of arch src ts (over (file_for arch t) src o)

abbrev pub artifact : Bytes → List (Bytes × Bytes) → Option Bytes
artifact src [] = none
artifact src ((s, d) ∷ m) = if beq s src then some d else artifact src m

-- What a plan holds beyond the plan before it: the flags, the targets of make in their order, and of
-- each file of the tree where it goes.
pub record Extends (arch : Bytes) (ts : List Bytes) (r q : Plan) : Type 0 where
  pub modules : q.want_modules ≡ (r.want_modules || member (codes "modules") ts)
  pub config : q.want_config ≡ (r.want_config || member (codes "config") ts)
  pub kconfigs : q.want_kconfigs ≡ (r.want_kconfigs || member (codes "kconfigs") ts)
  pub made : q.make_targets ≡ r.make_targets ++ all_made arch ts
  pub places :
      (src : Bytes) → artifact src q.artifacts ≡ place_of arch src ts (artifact src r.artifacts)

abbrev Adds : Bytes → Bytes → Plan → Type 0
Adds arch t r = (q : Plan) × (add_target arch t r ≡ ok q) × Extends arch (t ∷ []) r q

-- A path that is set again goes to the new place.
artifact-set_artifact :
    (src s d : Bytes) (m : List (Bytes × Bytes))
    → artifact src (set_artifact s d m) ≡ (if beq s src then some d else artifact src m)
unfolding set_artifact
artifact-set_artifact src s d [] = refl
artifact-set_artifact src s d ((k, e) ∷ m) = elim (Bool-cases (beq k s)) [
  | inl h ↦
      let same : k ≡ s = (beq_iff k s).0 h in rw h (by_place (beq s src) (ap (λ x. beq x src) same))
  | inr h ↦ rw h (rest h (beq k src) refl (artifact-set_artifact src s d m))
]
  where
    by_place :
        (b : Bool)
        → beq k src ≡ b
        → (if beq k src then some d else artifact src m)
          ≡ (if b then some d else (if beq k src then some e else artifact src m))
    by_place true h = rw h refl
    by_place false h = rw h refl

    rest :
        beq k s ≡ false
        → (b : Bool) → beq k src ≡ b
        → artifact src (set_artifact s d m) ≡ (if beq s src then some d else artifact src m)
        → (if b then some e else artifact src (set_artifact s d m))
          ≡ (if beq s src then some d else (if b then some e else artifact src m))
    rest ne true h i = elim (Bool-cases (beq s src)) [
      | inl g ↦
          let same : k ≡ s = (beq_iff k src).0 h ∙ sym ((beq_iff s src).0 g) in
          let clash : beq k s ≡ true = (beq_iff k s).1 same in cc
      | inr g ↦ rw g refl
    ]
    rest ne false h i = i

add_image-Extends :
    (arch : Bytes) (r : Plan) → Extends arch (codes "image" ∷ []) r (add_image arch r)
unfolding add_image member all_made made_for place_of file_for beq
add_image-Extends arch r = elim (Bool-cases (beq arch (codes "arm64"))) [
  | inl e ↦
      rw (e, add_image)
        (record {
          modules = ground arith;
          config = ground arith;
          kconfigs = ground arith;
          made = rw e refl;
          places = λ src.
              artifact-set_artifact src (codes "arch/arm64/boot/Image") (codes "/out/Image")
                r.artifacts
              ∙ rw e refl;
        })
  | inr e ↦
      rw (e, add_image)
        (record {
          modules = ground arith;
          config = ground arith;
          kconfigs = ground arith;
          made = rw e refl;
          places = λ src.
              artifact-set_artifact src (codes "arch/x86/boot/bzImage") (codes "/out/bzImage")
                r.artifacts
              ∙ rw e refl;
        })
]

pub is_target-cases :
    (t : Bytes)
    → is_target t ≡ true
    → (t ≡ codes "vmlinux")
      ⊎ (t ≡ codes "image")
      ⊎ (t ≡ codes "modules")
      ⊎ (t ≡ codes "config")
      ⊎ (t ≡ codes "kconfigs")
unfolding is_target
is_target-cases t h = ground (
  arith,
  beq_iff t (codes "vmlinux"),
  beq_iff t (codes "image"),
  beq_iff t (codes "modules"),
  beq_iff t (codes "config"),
  beq_iff t (codes "kconfigs"),
)

add_vmlinux : (arch : Bytes) (r : Plan) → Adds arch (codes "vmlinux") r
unfolding add_target member all_made made_for place_of file_for beq
add_vmlinux arch r = (
  lift (codes "vmlinux") (codes "vmlinux") (codes "/out/vmlinux") r,
  refl,
  record {
    modules = ground arith;
    config = ground arith;
    kconfigs = ground arith;
    made = refl;
    places = λ src. artifact-set_artifact src (codes "vmlinux") (codes "/out/vmlinux") r.artifacts;
  },
)

add_modules : (arch : Bytes) (r : Plan) → Adds arch (codes "modules") r
unfolding add_target member all_made made_for place_of file_for beq
add_modules arch r = (
  record r { make_targets = r.make_targets ++ (codes "modules" ∷ []); want_modules = true },
  refl,
  record {
    modules = ground arith;
    config = ground arith;
    kconfigs = ground arith;
    made = refl;
    places = λ src. refl;
  },
)

add_config : (arch : Bytes) (r : Plan) → Adds arch (codes "config") r
unfolding add_target member all_made made_for place_of file_for beq
add_config arch r = (
  record r { want_config = true },
  refl,
  record {
    modules = ground arith;
    config = ground arith;
    kconfigs = ground arith;
    made = sym (append-nil r.make_targets);
    places = λ src. refl;
  },
)

add_kconfigs : (arch : Bytes) (r : Plan) → Adds arch (codes "kconfigs") r
unfolding add_target member all_made made_for place_of file_for beq
add_kconfigs arch r = (
  record r { want_kconfigs = true },
  refl,
  record {
    modules = ground arith;
    config = ground arith;
    kconfigs = ground arith;
    made = sym (append-nil r.make_targets);
    places = λ src. refl;
  },
)

add_target-known : (arch t : Bytes) (r : Plan) → is_target t ≡ true → Adds arch t r
add_target-known arch t r h = elim (is_target-cases t h) [
  | inl e ↦ rw e (add_vmlinux arch r)
  | inr (inl e) ↦ rw e (add_image arch r, unfold add_target in refl, add_image-Extends arch r)
  | inr (inr (inl e)) ↦ rw e (add_modules arch r)
  | inr (inr (inr (inl e))) ↦ rw e (add_config arch r)
  | inr (inr (inr (inr e))) ↦ rw e (add_kconfigs arch r)
]

Extends-cons :
    (arch t : Bytes) (ts : List Bytes) (r q p : Plan)
    → Extends arch (t ∷ []) r q
    → Extends arch ts q p
    → Extends arch (t ∷ ts) r p
unfolding member all_made place_of
Extends-cons arch t ts r q p a b = record {
  modules = ground (arith, a.modules, b.modules);
  config = ground (arith, a.config, b.config);
  kconfigs = ground (arith, a.kconfigs, b.kconfigs);
  made =
      b.made
      ∙ (ap (λ l. l ++ all_made arch ts) a.made
          ∙ (append_assoc r.make_targets (made_for arch t ++ []) (all_made arch ts)
              ∙ ap (λ l. r.make_targets ++ (l ++ all_made arch ts))
                  (append-nil (made_for arch t))));
  places = λ src. b.places src ∙ ap (place_of arch src ts) (a.places src);
}

-- Known tokens are all taken.
pub add_targets-known :
    (arch : Bytes) (ts : List Bytes) (r : Plan)
    → every is_target ts ≡ true
    → (q : Plan) × (add_targets arch ts r ≡ ok q) × Extends arch ts r q
unfolding add_targets
add_targets-known arch [] r h = (
  r,
  refl,
  unfold member all_made place_of in
      record {
        modules = ground arith;
        config = ground arith;
        kconfigs = ground arith;
        made = sym (append-nil r.make_targets);
        places = λ src. refl;
      },
)
add_targets-known arch (t ∷ ts) r h =
    let (q, h₁, a) = add_target-known arch t r (ground arith) in
    let (p, h₂, b) = add_targets-known arch ts q (ground arith) in
    (p, rw h₁ h₂, Extends-cons arch t ts r q p a b)
