-- ===== src/Frontend/Pin.antt =====
-- What `applyOpts` does to the pin of the source.
use kernelbuild_buildkit.Common.{
  Bool, true, false, not, ◌&&◌, [], ◌≡◌, refl, ap, ◌∙◌, Option, ◌⊎◌, inl, inr, Bytes, codes, beq,
  is_empty, if◌then◌else◌, Result, ok, err, ◌>>=◌, >>=-eq-ok, Bool-cases,
}
use kernelbuild_buildkit.Frontend.{
  Opts, opt, Platform, OptError, opt_bool, set_version, set_url, apply_source, apply_names,
  apply_network, apply_targets, apply_no_cache, arch_for_platform, apply_platform, apply_opts,
  apply_ready, apply_patching, apply_push, before_platform,
}
use kernelbuild_buildkit.Spec.{Spec}

-- The same source: version, URL and pin.
abbrev pub IsSameSource : Spec → Spec → Type 0
IsSameSource s t =
    (s.source_sha256 ≡ t.source_sha256)
    × ((s.source_url ≡ t.source_url) × (s.kernel_version ≡ t.kernel_version))

set_version-pin :
    (v : Bytes) (s : Spec)
    → ((set_version v s).source_sha256 ≡ []) ⊎ IsSameSource (set_version v s) s
unfolding set_version
set_version-pin v s = elim (Bool-cases (not (is_empty v) && not (beq v s.kernel_version))) [
  | inl e ↦ rw e (inl refl)
  | inr e ↦ rw e (inr (refl, (refl, refl)))
]

set_url-pin :
    (v : Bytes) (s : Spec) → ((set_url v s).source_sha256 ≡ []) ⊎ IsSameSource (set_url v s) s
unfolding set_url
set_url-pin v s = elim (Bool-cases (not (is_empty v) && not (beq v s.source_url))) [
  | inl e ↦ rw e (inl refl)
  | inr e ↦ rw e (inr (refl, (refl, refl)))
]

IsSameSource-trans : (r s t : Spec) → IsSameSource r s → IsSameSource s t → IsSameSource r t
IsSameSource-trans r s t (p, (u, v)) (q, (x, y)) = (p ∙ q, (u ∙ x, v ∙ y))

-- The pin after the version and the URL.
both-pin :
    (u v : Bytes) (s : Spec)
    → ((set_url u (set_version v s)).source_sha256 ≡ [])
      ⊎ IsSameSource (set_url u (set_version v s)) s
both-pin u v s = elim (set_url-pin u (set_version v s)) [
  | inl e ↦ inl e
  | inr same ↦ elim (set_version-pin v s) [
    | inl e ↦ inl (same.0 ∙ e)
    | inr first ↦
        inr (IsSameSource-trans (set_url u (set_version v s)) (set_version v s) s same first)
  ]
]

-- Where the pin of the result comes from.
abbrev pub PinOrigin : Opts → Spec → Spec → Type 0
PinOrigin opts s t =
    (t.source_sha256 ≡ opt opts (codes "source-sha256"))
    ⊎ ((t.source_sha256 ≡ []) ⊎ IsSameSource t s)

apply_source-pin : (opts : Opts) (s : Spec) → PinOrigin opts s (apply_source opts s)
unfolding apply_source
apply_source-pin opts s = elim (Bool-cases (is_empty (opt opts (codes "source-sha256")))) [
  | inl e ↦
      rw e (inr (both-pin (opt opts (codes "source-url")) (opt opts (codes "kernel-version")) s))
  | inr e ↦ rw e (inl refl)
]

abbrev given : Spec → Result OptError Spec
given s = ok s

at_ok : (u t : Spec) → given u ≡ ok t → IsSameSource t u
at_ok u t h =
    let e : t ≡ u = cc in
    (ap (λ x. x.source_sha256) e, (ap (λ x. x.source_url) e, ap (λ x. x.kernel_version) e))

by_arch :
    (r : Result OptError Bytes) (s t : Spec)
    → (r >>= λ arch. ok (record s { arch = arch })) ≡ ok t
    → IsSameSource t s
by_arch (ok arch) s t h = at_ok (record s { arch = arch }) t h
by_arch (err e) s t h = cc

by_platform :
    (b : Bool) (r : Result OptError Bytes) (s t : Spec)
    → (if b then ok s else (r >>= λ arch. ok (record s { arch = arch }))) ≡ ok t
    → IsSameSource t s
by_platform true r s t h = at_ok s t h
by_platform false r s t h = by_arch r s t h

apply_platform-source :
    (parse : Bytes → Option Platform) (opts : Opts) (s t : Spec)
    → apply_platform parse opts s ≡ ok t
    → IsSameSource t s
unfolding apply_platform
apply_platform-source parse opts s t h =
    by_platform (is_empty (opt opts (codes "platform")))
      (arch_for_platform parse (opt opts (codes "platform"))) s t h

apply_targets-source : (opts : Opts) (s : Spec) → IsSameSource (apply_targets opts s) s
unfolding apply_targets
apply_targets-source opts s = elim (Bool-cases (is_empty (opt opts (codes "targets")))) [
  | inl e ↦ rw e (refl, (refl, refl))
  | inr e ↦ rw e (refl, (refl, refl))
]

by_flag :
    (r : Result OptError Bool) (f : Bool → Spec) (s t : Spec)
    → ((b : Bool) → IsSameSource (f b) s)
    → (r >>= λ b. ok (f b)) ≡ ok t
    → IsSameSource t s
by_flag (ok b) f s t same h = IsSameSource-trans t (f b) s (at_ok (f b) t h) (same b)
by_flag (err e) f s t same h = cc

apply_ready-source : (opts : Opts) (s t : Spec) → apply_ready opts s ≡ ok t → IsSameSource t s
unfolding apply_ready
apply_ready-source opts s t h =
    by_flag (opt_bool opts (codes "toolchain-ready") s.toolchain_ready)
      (λ b. record s { toolchain_ready = b }) s t (λ b. (refl, (refl, refl))) h

apply_patching-source : (opts : Opts) (s t : Spec) → apply_patching opts s ≡ ok t → IsSameSource t s
unfolding apply_patching
apply_patching-source opts s t h =
    by_flag (opt_bool opts (codes "apply-patches") s.apply_patches)
      (λ b. record s { apply_patches = b }) s t (λ b. (refl, (refl, refl))) h

apply_push-source : (opts : Opts) (s t : Spec) → apply_push opts s ≡ ok t → IsSameSource t s
unfolding apply_push
apply_push-source opts s t h =
    by_flag (opt_bool opts (codes "seed-push") s.seed_push) (λ b. record s { seed_push = b }) s t
      (λ b. (refl, (refl, refl))) h

before_platform-source : (opts : Opts) (s : Spec) → IsSameSource (before_platform opts s) s
unfolding apply_network
before_platform-source opts s = (refl, (refl, refl))

PinOrigin-same :
    (opts : Opts) (s t u : Spec) → PinOrigin opts s t → IsSameSource u t → PinOrigin opts s u
PinOrigin-same opts s t u (inl e) same = inl (same.0 ∙ e)
PinOrigin-same opts s t u (inr (inl e)) same = inr (inl (same.0 ∙ e))
PinOrigin-same opts s t u (inr (inr first)) same = inr (inr (IsSameSource-trans u t s same first))

-- A pin never outlives the source that it was given for: when `applyOpts` succeeds, the pin of the
-- result is that of the option source-sha256, or it is empty, or else the version, the URL and the
-- pin are all those from before.
pub apply_opts-pin :
    (parse : Bytes → Option Platform) (opts : Opts) (s t : Spec)
    → apply_opts parse opts s ≡ ok t
    → PinOrigin opts s t
unfolding apply_opts
apply_opts-pin parse opts s t h =
    let first = apply_names opts (apply_source opts s) in
    let (ready, r, rest) = >>=-eq-ok (apply_ready opts first) _ h in
    let (placed, p, rest2) =
      >>=-eq-ok (apply_platform parse opts (before_platform opts ready)) _ rest in
    let (patched, q, last) = >>=-eq-ok (apply_patching opts (apply_targets opts placed)) _ rest2 in
    let o =
      PinOrigin-same opts s first ready (apply_source-pin opts s)
        (apply_ready-source opts first ready r) in
    let o2 =
      PinOrigin-same opts s ready (before_platform opts ready) o
        (before_platform-source opts ready) in
    let o3 =
      PinOrigin-same opts s (before_platform opts ready) placed o2
        (apply_platform-source parse opts (before_platform opts ready) placed p) in
    let o4 =
      PinOrigin-same opts s placed (apply_targets opts placed) o3
        (apply_targets-source opts placed) in
    let o5 =
      PinOrigin-same opts s (apply_targets opts placed) patched o4
        (apply_patching-source opts (apply_targets opts placed) patched q) in
    PinOrigin-same opts s patched t o5 (apply_push-source opts (apply_no_cache opts patched) t last)
