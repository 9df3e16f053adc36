-- ===== src/Frontend/Layers.antt =====
-- What `build` hands to `GatewaySolve`.
use kernelbuild_buildkit.Spec.Source.{default_spec}
use kernelbuild_buildkit.Common.{
  ◌↔◌, sym, ap, ◌∙◌, [], ◌∷◌, ◌++◌, map, split, trim_space, Bool, true, false, ◌≡◌, refl, Option,
  none, some, ◌⊎◌, inl, inr, Bytes, codes, beq, is_empty, List, if◌then◌else◌, Result, ok, err,
  ◌>>=◌, >>=-eq-ok, >>-eq-ok, reject, reject-eq-ok,
}
use kernelbuild_buildkit.Frontend.{opt, apply_opts}
use kernelbuild_buildkit.Frontend.Build.{
  CacheImport, BuildError, opt_error, spec_error, kernelfile_error, no_helper,
  unsupported_subrequest, Reply, solve, described, Gateway, wrap, read_layer, registry_imports,
  with_registry, kernelfile_layer, first_spec, parse_cache_imports, build_kernel, build,
}
use kernelbuild_buildkit.Kernelfile.{parse_kernelfile}
use kernelbuild_buildkit.Spec.{Spec}
use kernelbuild_buildkit.Spec.Validate.{validate}
use mathlib.Core.Path.{subst}

-- The references of cache-from: the pieces between the commas without the space around them, less those
-- of which nothing is left.
unfoldable pub not_blank : List Bytes → List Bytes
not_blank [] = []
not_blank ([] ∷ refs) = not_blank refs
not_blank ((c ∷ ref) ∷ refs) = (c ∷ ref) ∷ not_blank refs

abbrev pub registry : Bytes → CacheImport
registry ref = record { type = codes "registry"; attrs = (codes "ref", ref) ∷ [] }

registry_imports-not_blank :
    (refs : List Bytes) → registry_imports refs ≡ map registry (not_blank (map trim_space refs))
unfolding registry_imports not_blank
registry_imports-not_blank [] = refl
registry_imports-not_blank (ref ∷ refs) = by_text (trim_space ref) (registry_imports-not_blank refs)
  where
    by_text :
        (t : Bytes)
        → registry_imports refs ≡ map registry (not_blank (map trim_space refs))
        → (if is_empty t then registry_imports refs else registry t ∷ registry_imports refs)
          ≡ map registry (not_blank (t ∷ map trim_space refs))
    by_text [] h = h
    by_text (c ∷ t) h = ap (λ l. registry (c ∷ t) ∷ l) h

-- A call that succeeds, and goes on to a success.
goes_on :
    {A : Type 0}
    → (call : Result BuildError A) (next : A → Result BuildError Reply) (a : A) {b : Reply}
    → call ≡ ok a
    → next a ≡ ok b
    → (call >>= next) ≡ ok b
goes_on call next a e h = ap (λ r. r >>= next) e ∙ h

module _ (g : Gateway) where
  -- The defaults, with the frontend's own image for the helper.
  abbrev pub start_spec : Spec
  start_spec = record default_spec { helper_ref = opt g.opts (codes "source") }

  -- `filed` is the Spec after the layer of the Kernelfile.
  abbrev pub IsFiled : Spec → Type 0
  IsFiled filed =
      ((is_empty (opt g.opts (codes "filename")) ≡ true) × (filed ≡ start_spec))
      ⊎ ((is_empty (opt g.opts (codes "filename")) ≡ false)
          × ((dt : Bytes) × ((g.read_kernelfile (opt g.opts (codes "filename")) ≡ some dt)
                × (parse_kernelfile dt start_spec ≡ ok filed))))

  abbrev pub described_refs : List CacheImport
  described_refs =
      map registry (not_blank (map trim_space (split b',' (opt g.opts (codes "cache-from")))))

  -- The imports of cache-imports, which are JSON, and those of cache-from behind them.
  abbrev pub IsImports : List CacheImport → Type 0
  IsImports imports =
      (listed : List CacheImport) × (((is_empty (opt g.opts (codes "cache-imports")) ≡ true)
          × (listed ≡ []))
        ⊎ ((is_empty (opt g.opts (codes "cache-imports")) ≡ false)
            × (g.parse_imports (opt g.opts (codes "cache-imports")) ≡ some listed)))
      × (imports ≡ listed ++ described_refs)

  pub record IsBuilt (spec : Spec) (mode : Bytes) (imports : List CacheImport) : Type 0 where
    pub build_request : is_empty (opt g.opts (codes "requestid")) ≡ true
    pub filed : Spec
    pub from_file : IsFiled filed
    pub from_opts : apply_opts g.parse_platform g.opts filed ≡ ok spec
    pub has_helper : is_empty spec.helper_ref ≡ false
    pub valid : validate spec ≡ ok tt
    pub resolve_mode : mode ≡ opt g.opts (codes "image-resolve-mode")
    pub cache : IsImports imports

  first_spec-start_spec : first_spec g ≡ start_spec
  unfolding default_spec
  first_spec-start_spec = by_source (opt g.opts (codes "source"))
    where
      by_source :
          (source : Bytes)
          → (if is_empty source then default_spec else record default_spec { helper_ref = source })
            ≡ record default_spec { helper_ref = source }
      by_source [] = refl
      by_source (c ∷ source) = refl

  wrap-eq-ok :
      {E A : Type 0} → (f : E → BuildError) (r : Result E A) (a : A) → wrap f r ≡ ok a → r ≡ ok a
  wrap-eq-ok f (ok b) a h = cc
  wrap-eq-ok f (err e) a h = cc

  read_layer-eq-ok :
      (o : Option Bytes) (filename : Bytes) (s t : Spec)
      → read_layer o filename s ≡ ok t
      → (dt : Bytes) × ((o ≡ some dt) × (parse_kernelfile dt s ≡ ok t))
  read_layer-eq-ok none filename s t h = cc
  read_layer-eq-ok (some dt) filename s t h =
      (dt, (refl, wrap-eq-ok kernelfile_error (parse_kernelfile dt s) t h))

  kernelfile_layer-IsFiled : (t : Spec) → kernelfile_layer g (first_spec g) ≡ ok t → IsFiled t
  unfolding kernelfile_layer
  kernelfile_layer-IsFiled t h =
      by_filename (is_empty (opt g.opts (codes "filename"))) refl
        (ap (kernelfile_layer g) (sym first_spec-start_spec) ∙ h)
    where
      by_filename :
          (b : Bool)
          → is_empty (opt g.opts (codes "filename")) ≡ b
          → (if b
              then ok start_spec
              else read_layer
                  (g.read_kernelfile (opt g.opts (codes "filename")))
                  (opt g.opts (codes "filename"))
                  start_spec)
            ≡ ok t
          → IsFiled t
      by_filename true e h = inl (e, cc)
      by_filename false e h = inr (
          (
            e,
            read_layer-eq-ok (g.read_kernelfile (opt g.opts (codes "filename")))
                (opt g.opts (codes "filename")) start_spec t h,
          ))

  IsFiled-kernelfile_layer : (t : Spec) → IsFiled t → kernelfile_layer g (first_spec g) ≡ ok t
  unfolding kernelfile_layer
  IsFiled-kernelfile_layer t (inl (e, f)) =
      ap (kernelfile_layer g) first_spec-start_spec ∙ rw e (ap ok (sym f))
  IsFiled-kernelfile_layer t (inr (e, (dt, (r, p)))) =
      ap (kernelfile_layer g) first_spec-start_spec ∙ rw (e, r) (ap (wrap kernelfile_error) p)

  parse_cache_imports-IsImports :
      (imports : List CacheImport) → parse_cache_imports g ≡ ok imports → IsImports imports
  unfolding parse_cache_imports
  parse_cache_imports-IsImports imports h =
      by_json (is_empty (opt g.opts (codes "cache-imports"))) refl
        (g.parse_imports (opt g.opts (codes "cache-imports"))) refl h
    where
      from_refs : List CacheImport
      from_refs = registry_imports (split b',' (opt g.opts (codes "cache-from")))

      listed_first :
          (l : List CacheImport) → l ++ from_refs ≡ imports → imports ≡ l ++ described_refs
      listed_first l e = sym e ∙ ap (λ k. l ++ k) (registry_imports-not_blank _)

      by_json :
          (b : Bool)
          → is_empty (opt g.opts (codes "cache-imports")) ≡ b
          → (o : Option (List CacheImport))
          → g.parse_imports (opt g.opts (codes "cache-imports")) ≡ o
          → with_registry g (if b then some [] else o) from_refs ≡ ok imports
          → IsImports imports
      by_json true e o f k = ([], inl (e, refl), listed_first [] (cc))
      by_json false e none f k = cc
      by_json false e (some l) f k = (l, inr (e, f), listed_first l (cc))

  IsImports-parse_cache_imports :
      (imports : List CacheImport) → IsImports imports → parse_cache_imports g ≡ ok imports
  unfolding parse_cache_imports
  IsImports-parse_cache_imports imports (listed, inl (e, f), same) =
      rw e (ap ok (registry_imports-not_blank _ ∙ sym (same ∙ ap (λ l. l ++ described_refs) f)))
  IsImports-parse_cache_imports imports (listed, inr (e, p), same) =
      rw (e, p) (ap ok (ap (λ l. listed ++ l) (registry_imports-not_blank _) ∙ sym same))

  abbrev given : Spec → Bytes → List CacheImport → Result BuildError Reply
  given spec mode imports = ok (solve spec mode imports)

  at_solve :
      (spec spec' : Spec) (mode mode' : Bytes) (imports imports' : List CacheImport)
      → given spec' mode' imports' ≡ ok (solve spec mode imports)
      → IsBuilt spec' mode' imports'
      → IsBuilt spec mode imports
  at_solve spec spec' mode mode' imports imports' h b =
      let e : spec' ≡ spec = cc in
      let f : imports' ≡ imports = cc in
      let m : mode' ≡ mode = cc in
      subst (λ i. IsBuilt spec mode i) f
        (subst (λ n. IsBuilt spec n imports') m (subst (λ s. IsBuilt s mode' imports') e b))

  build_kernel-IsBuilt :
      (spec : Spec) (mode : Bytes) (imports : List CacheImport)
      → is_empty (opt g.opts (codes "requestid")) ≡ true
      → build_kernel g ≡ ok (solve spec mode imports)
      → IsBuilt spec mode imports
  unfolding build_kernel
  build_kernel-IsBuilt spec mode imports r h =
      let (filed, a, rest) = >>=-eq-ok (kernelfile_layer g (first_spec g)) _ h in
      let (spec', b, rest2) =
        >>=-eq-ok (wrap opt_error (apply_opts g.parse_platform g.opts filed)) _ rest in
      let (c, rest3) = >>-eq-ok (reject (is_empty spec'.helper_ref) no_helper) _ rest2 in
      let (d, rest4) = >>-eq-ok (wrap spec_error (validate spec')) _ rest3 in
      let (imports', e, last) = >>=-eq-ok (parse_cache_imports g) _ rest4 in
      at_solve spec spec' mode (opt g.opts (codes "image-resolve-mode")) imports imports' last
        (record {
          build_request = r;
          filed = filed;
          from_file = kernelfile_layer-IsFiled filed a;
          from_opts = wrap-eq-ok opt_error (apply_opts g.parse_platform g.opts filed) spec' b;
          has_helper = reject-eq-ok (is_empty spec'.helper_ref) no_helper c;
          valid = wrap-eq-ok spec_error (validate spec') tt d;
          resolve_mode = refl;
          cache = parse_cache_imports-IsImports imports' e;
        })

  IsBuilt-build_kernel :
      (spec : Spec) (mode : Bytes) (imports : List CacheImport)
      → IsBuilt spec mode imports
      → build_kernel g ≡ ok (solve spec mode imports)
  unfolding build_kernel
  IsBuilt-build_kernel spec mode imports i =
      goes_on (kernelfile_layer g (first_spec g)) _ i.filed
        (IsFiled-kernelfile_layer i.filed i.from_file)
        (goes_on (wrap opt_error (apply_opts g.parse_platform g.opts i.filed)) _ spec
          (ap (wrap opt_error) i.from_opts)
          (goes_on (reject (is_empty spec.helper_ref) no_helper) _ tt (rw (i.has_helper) refl) (
            goes_on (wrap spec_error (validate spec)) _ tt (ap (wrap spec_error) i.valid) (
              goes_on (parse_cache_imports g) _ imports
                (IsImports-parse_cache_imports imports i.cache)
                (ap (λ m. given spec m imports) (sym i.resolve_mode))))))

-- `build` hands a Spec, a resolve mode and cache imports to `GatewaySolve` exactly if no subrequest is
-- made, the Spec is what the layers give in their order and is valid with a helper, and the mode and the
-- imports are the options'. The layers: the defaults with the frontend's own image, then, if one is
-- named, the Kernelfile, which has been read and parsed, then the options. The imports: those that
-- cache-imports lists, then one of the registry for each reference in cache-from that is not blank.
pub build-IsBuilt :
    (g : Gateway) (spec : Spec) (mode : Bytes) (imports : List CacheImport)
    → (build g ≡ ok (solve spec mode imports)) ↔ IsBuilt g spec mode imports
unfolding build
build-IsBuilt g spec mode imports = (
  λ h. by_request (is_empty (opt g.opts (codes "requestid"))) refl h,
  λ i. rw (i.build_request) (IsBuilt-build_kernel g spec mode imports i),
)
  where
    by_request :
        (b : Bool)
        → is_empty (opt g.opts (codes "requestid")) ≡ b
        → (if b
            then build_kernel g
            else if beq (opt g.opts (codes "requestid")) g.describe_request
            then ok described
            else err (unsupported_subrequest (opt g.opts (codes "requestid"))))
          ≡ ok (solve spec mode imports)
        → IsBuilt g spec mode imports
    by_request true r h = build_kernel-IsBuilt g spec mode imports r h
    by_request false r h =
        absurd (no_solve (beq (opt g.opts (codes "requestid")) g.describe_request) h)
      where
        no_solve :
            (b : Bool)
            → ¬ (
                (if b
                  then ok described
                  else err (unsupported_subrequest (opt g.opts (codes "requestid"))))
                ≡ ok (solve spec mode imports))
        no_solve true h = cc
        no_solve false h = cc
