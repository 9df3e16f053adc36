-- ===== src/Frontend/Build.antt =====
-- `build` of the frontend: the layers of a build's input, in the order in which they count.
use kernelbuild_buildkit.Common.{
  List, [], ◌∷◌, ◌++◌, Option, none, some, Bytes, codes, beq, is_empty, split, trim_space,
  if◌then◌else◌, Result, ok, err, ◌>>=◌, ◌>>◌, reject,
}
use kernelbuild_buildkit.Frontend.{Opts, opt, Platform, OptError, apply_opts}
use kernelbuild_buildkit.Kernelfile.{KernelfileError, parse_kernelfile}
use kernelbuild_buildkit.Spec.{Spec}
use kernelbuild_buildkit.Spec.Source.{default_spec}
use kernelbuild_buildkit.Spec.Validate.{SpecError, validate}

-- `gwclient.CacheOptionsEntry`
pub record CacheImport : Type 0 where
  pub type : Bytes
  pub attrs : List (Bytes × Bytes)

pub data BuildError : Type 0 where
  unsupported_subrequest : Bytes → BuildError
  unreadable_kernelfile : Bytes → BuildError
  kernelfile_error : KernelfileError → BuildError
  opt_error : OptError → BuildError
  no_helper : BuildError
  spec_error : SpecError → BuildError
  bad_cache_imports : BuildError

-- What `build` does last: the answer to a subrequest, or the call of `GatewaySolve`.
pub data Reply : Type 0 where
  described : Reply
  solve : Spec → Bytes → List CacheImport → Reply

-- The gateway, and the libraries that read platforms and JSON.
pub record Gateway : Type 0 where
  pub opts : Opts
  -- the name of the describe request
  pub describe_request : Bytes
  pub read_kernelfile : Bytes → Option Bytes
  pub parse_platform : Bytes → Option Platform
  pub parse_imports : Bytes → Option (List CacheImport)

abbrev pub wrap : {E A : Type 0} → (E → BuildError) → Result E A → Result BuildError A
wrap f (ok a) = ok a
wrap f (err e) = err (f e)

unfoldable pub registry_imports : List Bytes → List CacheImport
unfolding trim_space
registry_imports [] = []
registry_imports (ref ∷ refs) =
    let rest = registry_imports refs in
    if is_empty (trim_space ref)
    then rest
    else record { type = codes "registry"; attrs = (codes "ref", trim_space ref) ∷ [] } ∷ rest

abbrev pub read_layer : Option Bytes → Bytes → Spec → Result BuildError Spec
read_layer none filename s = err (unreadable_kernelfile filename)
read_layer (some dt) filename s = wrap kernelfile_error (parse_kernelfile dt s)

module _ (g : Gateway) where
  abbrev pub json_imports : Bytes → Option (List CacheImport)
  json_imports v = if is_empty v then some [] else g.parse_imports v

  abbrev pub with_registry :
      Option (List CacheImport) → List CacheImport → Result BuildError (List CacheImport)
  with_registry none refs = err bad_cache_imports
  with_registry (some out) refs = ok (out ++ refs)

  -- `parseCacheImports`
  unfoldable pub parse_cache_imports : Result BuildError (List CacheImport)
  unfolding registry_imports split
  parse_cache_imports =
      with_registry (json_imports (opt g.opts (codes "cache-imports")))
        (registry_imports (split b',' (opt g.opts (codes "cache-from"))))

  -- The layer of the Kernelfile.
  unfoldable pub kernelfile_layer : Spec → Result BuildError Spec
  unfolding parse_kernelfile
  kernelfile_layer s =
      let filename = opt g.opts (codes "filename") in
      if is_empty filename then ok s else read_layer (g.read_kernelfile filename) filename s

  -- The Spec before the layers: the frontend's own image carries the helper.
  abbrev pub first_spec : Spec
  first_spec =
      let source = opt g.opts (codes "source") in
      if is_empty source then default_spec else record default_spec { helper_ref = source }

  unfoldable pub build_kernel : Result BuildError Reply
  unfolding kernelfile_layer apply_opts validate parse_cache_imports default_spec
  build_kernel = do
    filed ← kernelfile_layer first_spec
    spec ← wrap opt_error (apply_opts g.parse_platform g.opts filed)
    reject (is_empty spec.helper_ref) no_helper
    wrap spec_error (validate spec)
    imports ← parse_cache_imports
    ok (solve spec (opt g.opts (codes "image-resolve-mode")) imports)

  -- `build`
  unfoldable pub build : Result BuildError Reply
  unfolding build_kernel beq
  build =
      let request = opt g.opts (codes "requestid") in
      if is_empty request
      then build_kernel
      else if beq request g.describe_request
      then ok described
      else err (unsupported_subrequest request)
