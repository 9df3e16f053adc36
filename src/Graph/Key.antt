-- ===== src/Graph/Key.antt =====
-- The cache key of the graph: what enters it and what does not.
use kernelbuild_buildkit.Common.{
  true, false, not, ◌||◌, List, [], ◌∷◌, ◌≡◌, refl, sym, ap, ◌∙◌, Option, none, some, Bytes, codes,
  beq, is_empty, contains, if◌then◌else◌, Result, ok, err, >>-eq-ok, reject, Bool-cases, inl, inr,
}
use kernelbuild_buildkit.Graph.{
  unpinned_base, toolchain_of, src_id, compile_env, compile_mounts, tree_mount, graph_of,
  kernel_llb, wrap,
}
use kernelbuild_buildkit.Graph.Vertices.{Exec, Graph}
use kernelbuild_buildkit.Seed.{tree_name, short_hash, toolchain_hash}
use kernelbuild_buildkit.Spec.{
  Spec, arch_or_default, cross_or_default, targets_or_default, patched_suffix,
}
use kernelbuild_buildkit.Spec.Validate.{SpecError, validate}

-- What BuildKit hashes of a vertex: neither its proxy, nor the name that it shows, nor that its cache is
-- to be ignored.
abbrev pub hashed : Exec → Exec
hashed e = record e { custom_name = []; proxy = none; ignore_cache = false }

abbrev pub hashed_option : Option Exec → Option Exec
hashed_option none = none
hashed_option (some e) = some (hashed e)

abbrev pub key : Graph → Graph
key g = record g { toolchain = hashed_option g.toolchain; compile = hashed g.compile }

-- Another proxy and another seed for the same build.
abbrev pub elsewhere : Bytes → Bytes → Bytes → Bytes → Bytes → Bytes → Spec → Spec
elsewhere https http no_proxy url region prefix s = record s {
  https_proxy = https;
  http_proxy = http;
  no_proxy = no_proxy;
  seed_url = url;
  seed_region = region;
  seed_prefix = prefix;
}

module _ (sum256 : Bytes → Bytes) (action : Bytes) where
  pub kernel_llb-graph :
      (s : Spec) (g : Graph) → kernel_llb sum256 action s ≡ ok g → g ≡ graph_of sum256 action s
  unfolding kernel_llb
  kernel_llb-graph s g h =
      let (a, rest) = >>-eq-ok (wrap (validate s)) _ h in
      let (b, last) =
        >>-eq-ok (reject (not (contains s.base (codes "@"))) (unpinned_base s.base)) _ rest in
      cc

wrap-eq-ok : (r : Result SpecError (Unit {0})) → wrap r ≡ ok tt → r ≡ ok tt
wrap-eq-ok (ok u) h = refl
wrap-eq-ok (err e) h = cc

pub kernel_llb-valid :
    (sum256 : Bytes → Bytes) (action : Bytes) (s : Spec) (g : Graph)
    → kernel_llb sum256 action s ≡ ok g
    → validate s ≡ ok tt
unfolding kernel_llb
kernel_llb-valid sum256 action s g h =
    let (a, rest) = >>-eq-ok (wrap (validate s)) _ h in wrap-eq-ok (validate s) a

toolchain_of-elsewhere :
    (a b c d e f : Bytes) (s : Spec)
    → hashed_option (toolchain_of (elsewhere a b c d e f s)) ≡ hashed_option (toolchain_of s)
unfolding toolchain_of
toolchain_of-elsewhere a b c d e f s =
    elim (Bool-cases (not s.toolchain_ready || not (is_empty s.proxy_ca_file))) [
      | inl q ↦ rw q refl
      | inr q ↦ rw q refl
    ]

-- The value of a variable; the empty one if there is none.
abbrev pub variable : Bytes → List (Bytes × Bytes) → Bytes
variable name [] = []
variable name ((n, v) ∷ env) = if beq n name then v else variable name env

module _ (sum256 : Bytes → Bytes) (s : Spec) (a b c d e f : Bytes) where
  key-elsewhere :
      (action other : Bytes)
      → s.seed_push ≡ false
      → key (graph_of sum256 other (elsewhere a b c d e f s)) ≡ key (graph_of sum256 action s)
  unfolding graph_of compile_env compile_mounts tree_mount tree_name short_hash toolchain_hash
      arch_or_default cross_or_default targets_or_default patched_suffix src_id
  key-elsewhere action other h = rw (toolchain_of-elsewhere a b c d e f s, h) refl

  action_of :
      (action : Bytes)
      → s.seed_push ≡ true
      → variable (codes "SEED_ACTION") (graph_of sum256 action s).compile.env ≡ action
  unfolding graph_of compile_env beq
  action_of action h = rw h refl

  action_of-elsewhere :
      (other : Bytes)
      → s.seed_push ≡ true
      → variable (codes "SEED_ACTION") (graph_of sum256 other (elsewhere a b c d e f s)).compile.env
        ≡ other
  unfolding graph_of compile_env beq
  action_of-elsewhere other h = rw h refl

  -- Two accepted Specs that differ in their proxies and in the URL, the region and the prefix of the seed
  -- only, each with a random action of its own: where no seed is to be pushed, their graphs have the
  -- same key; where one is, the key is the same only if the two actions happen to be.
  pub kernel_llb-neutral :
      (action other : Bytes) (g h : Graph)
      → kernel_llb sum256 action s ≡ ok g
      → kernel_llb sum256 other (elsewhere a b c d e f s) ≡ ok h
      → (s.seed_push ≡ false → key h ≡ key g)
        × (s.seed_push ≡ true → key h ≡ key g → other ≡ action)
  kernel_llb-neutral action other g h p q =
      let u = kernel_llb-graph sum256 action s g p in
      let v = kernel_llb-graph sum256 other (elsewhere a b c d e f s) h q in
      (
        λ off. ap key v ∙ (key-elsewhere action other off ∙ sym (ap key u)),
        λ on same.
            sym (action_of-elsewhere other on)
            ∙ (ap (λ x. variable (codes "SEED_ACTION") x.compile.env)
                  (sym (ap key v) ∙ (same ∙ ap key u))
                ∙ action_of action on),
      )
