-- ===== src/Graph/Contract.antt =====
-- The environment that `KernelLLB` gives the runner, and what the runner's `acquireSource` makes of it.
use kernelbuild_buildkit.Common.{
  ℕ, ◌==◌, Bool, true, false, not, ◌&&◌, [], ◌∷◌, ◌≡◌, refl, sym, ap, ◌∙◌, arith, Option, none,
  some, Bytes, codes, beq, is_empty, has_prefix, Result, ok, err, >>-eq-ok, Bool-cases, inl, inr,
}
use kernelbuild_buildkit.Regex.Alphabet.{matches-empty}
use kernelbuild_buildkit.Regex.{matches}
use kernelbuild_buildkit.Spec.Patterns.{file_re}
use kernelbuild_buildkit.Graph.{src_url, wrap, graph_of, kernel_llb, compile_env}
use kernelbuild_buildkit.Graph.Key.{variable, kernel_llb-graph}
use kernelbuild_buildkit.Graph.Vertices.{Graph}
use kernelbuild_buildkit.Spec.{Spec}
use kernelbuild_buildkit.Spec.Accepted.{IsSafe, validate-IsSafe}
use kernelbuild_buildkit.Spec.Accepted.Origin.{source_name}
use kernelbuild_buildkit.Spec.Validate.{SpecError, validate, has_dots, is_file}
use kernelbuild_buildkit.Spec.Source.{source_ext}
use kernelbuild_buildkit.Step.Mount.{Mount, get}
use kernelbuild_buildkit.Step.Run.{
  Outcome, done, failed, StepError, unsupported_source, bad_local_name,
}
use kernelbuild_buildkit.Step.Source.{
  Tarball, acquire_source, is_bad_local, is_cached, keep_part, fetch, acquire_url, acquire_ext,
  acquire_local, cached_name,
}
use kernelbuild_buildkit.Step.World.{Env, World, Fetched, whole, cut_short}

-- The variables that the runner reads, from the environment of the compile vertex.
abbrev pub env_of : Graph → Env
env_of g = record {
  src_id = variable (codes "SRC_ID") g.compile.env;
  src_url = variable (codes "SRC_URL") g.compile.env;
  src_sha256 = variable (codes "SRC_SHA256") g.compile.env;
  src_local = variable (codes "SRC_LOCAL") g.compile.env;
  apply_patches = variable (codes "APPLY_PATCHES") g.compile.env;
  base_make = variable (codes "BASE_MAKE") g.compile.env;
  karch = variable (codes "KARCH") g.compile.env;
  cross_compile = variable (codes "CROSS_COMPILE") g.compile.env;
}

abbrev is_refusal_error : StepError → Bool
is_refusal_error (bad_local_name n) = true
is_refusal_error (unsupported_source u) = true
is_refusal_error e = false

-- The runner refuses the source that it is told to take.
abbrev pub is_refusal : Outcome Tarball → Bool
is_refusal (done t) = false
is_refusal (failed e) = is_refusal_error e

slash-is_file : (s : Bytes) → is_file (b'/' ∷ s) ≡ false
unfolding is_file matches file_re
slash-is_file s = rw (matches-empty s) refl

is_file-slash : (c : ℕ) (s : Bytes) → is_file (c ∷ s) ≡ true → (c == b'/') ≡ false
is_file-slash c s h = elim (Bool-cases (c == b'/')) [
  | inl e ↦ let q : c ≡ b'/' = ground arith in ground (arith, slash-is_file s)
  | inr e ↦ e
]

is_file-is_bad_local : (s : Bytes) → is_file s ≡ true → is_bad_local s ≡ false
unfolding is_bad_local has_prefix is_file has_dots
is_file-is_bad_local [] h = refl
is_file-is_bad_local (c ∷ s) h = ground (arith, is_file-slash c s)

module _ (w : World) where
  keep_part-accepts :
      (ext sum body : Bytes) (m : Mount) → is_refusal (keep_part w ext sum body m).outcome ≡ false
  unfolding keep_part
  keep_part-accepts ext sum body m =
      elim (Bool-cases (not (is_empty sum) && not (beq (w.sha256_hex body) sum))) [
        | inl e ↦ rw e refl
        | inr e ↦ rw e refl
      ]

  fetch-accepts :
      (ext sum : Bytes) (f : Fetched) (m : Mount) → is_refusal (fetch w ext sum f m).outcome ≡ false
  unfolding fetch
  fetch-accepts ext sum (cut_short none) m = refl
  fetch-accepts ext sum (cut_short (some body)) m = refl
  fetch-accepts ext sum (whole body) m = keep_part-accepts ext sum body _

  acquire_url-accepts :
      (ext url sum : Bytes) (m : Mount) → is_refusal (acquire_url w ext url sum m).outcome ≡ false
  unfolding acquire_url
  acquire_url-accepts ext url sum m =
      elim (Bool-cases (is_cached w sum (get (cached_name ext) m))) [
        | inl e ↦ rw e refl
        | inr e ↦ rw e (fetch-accepts ext sum (w.download url) m)
      ]

  acquire_ext-accepts :
      (o : Option Bytes) (e : Bytes) (m : Mount)
      → o ≡ some e
      → is_refusal (acquire_ext w o m).outcome ≡ false
  unfolding acquire_ext
  acquire_ext-accepts none e m h = cc
  acquire_ext-accepts (some ext) e m h = acquire_url-accepts ext w.env.src_url w.env.src_sha256 m

  acquire_local-accepts :
      (name : Bytes) (m : Mount)
      → is_bad_local name ≡ false
      → is_refusal (acquire_local w name m).outcome ≡ false
  unfolding acquire_local
  acquire_local-accepts name m h = rw h refl

  acquire_source-accepts :
      (s : Spec) (m : Mount)
      → IsSafe s
      → w.env.src_local ≡ s.source_local_name
      → w.env.src_url ≡ src_url s
      → is_refusal (acquire_source w m).outcome ≡ false
  unfolding acquire_source
  acquire_source-accepts s m safe l u = elim (Bool-cases (is_empty w.env.src_local)) [
    | inl e ↦
        let none_local : is_empty s.source_local_name ≡ true = ap is_empty (sym l) ∙ e in
        let same : src_url s ≡ source_name s = rw none_local refl in
        let known = safe.source.ext_known in
        rw e (
          acquire_ext-accepts (source_ext w.env.src_url) known.0 m
            (ap source_ext (u ∙ same) ∙ known.1))
    | inr e ↦
        let some_local : is_empty s.source_local_name ≡ false = ap is_empty (sym l) ∙ e in
        let file : is_file s.source_local_name ≡ true = is_file-local safe some_local in
        rw e (
          acquire_local-accepts w.env.src_local m
            (ap is_bad_local l ∙ is_file-is_bad_local s.source_local_name file))
  ]
    where
      is_file-local :
          IsSafe s → is_empty s.source_local_name ≡ false → is_file s.source_local_name ≡ true
      is_file-local safe h = let f = safe.names.local_file in ground arith

wrap-eq-ok : (r : Result SpecError (Unit {0})) → wrap r ≡ ok tt → r ≡ ok tt
wrap-eq-ok (ok u) h = refl
wrap-eq-ok (err e) h = cc

kernel_llb-validate :
    (sum256 : Bytes → Bytes) (action : Bytes) (s : Spec) (g : Graph)
    → kernel_llb sum256 action s ≡ ok g
    → validate s ≡ ok tt
unfolding kernel_llb
kernel_llb-validate sum256 action s g h =
    wrap-eq-ok (validate s) ((>>-eq-ok (wrap (validate s)) _ h).0)

env_of-graph_of :
    (sum256 : Bytes → Bytes) (action : Bytes) (s : Spec)
    → ((env_of (graph_of sum256 action s)).src_local ≡ s.source_local_name)
      × ((env_of (graph_of sum256 action s)).src_url ≡ src_url s)
unfolding graph_of compile_env beq
env_of-graph_of sum256 action s = (refl, refl)

-- A runner in the environment of a graph that `KernelLLB` built never refuses the source: it finds
-- neither a bad SRC_LOCAL nor an unsupported source, whatever the mount holds and the download brings.
pub acquire_source-kernel_llb :
    (sum256 : Bytes → Bytes) (action : Bytes) (s : Spec) (g : Graph) (w : World) (m : Mount)
    → kernel_llb sum256 action s ≡ ok g
    → w.env ≡ env_of g
    → is_refusal (acquire_source w m).outcome ≡ false
acquire_source-kernel_llb sum256 action s g w m h e =
    let same = ap env_of (kernel_llb-graph sum256 action s g h) in
    let (local, url) = env_of-graph_of sum256 action s in
    acquire_source-accepts w s m (validate-IsSafe s (kernel_llb-validate sum256 action s g h))
      (ap (λ v. v.src_local) (e ∙ same) ∙ local) (ap (λ v. v.src_url) (e ∙ same) ∙ url)
