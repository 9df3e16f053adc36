-- ===== src/Solve.antt =====
-- gateway.go: `GatewaySolve`, the path of every build to the daemon, up to the graph that it solves.
pub mod Checked
pub mod Local
use kernelbuild_buildkit.Common.{
  Bool, true, false, not, ◌||◌, List, [], ◌∷◌, ◌++◌, Option, none, some, Bytes, codes, is_empty,
  contains, has_suffix, cut, break_at, if◌then◌else◌, Result, ok, err, ◌>>=◌, ◌>>◌,
}
use kernelbuild_buildkit.Graph.{GraphError, kernel_llb}
use kernelbuild_buildkit.Graph.Vertices.{Graph}
use kernelbuild_buildkit.Spec.{Spec}
use kernelbuild_buildkit.Spec.Validate.{SpecError, validate}

pub data SolveError : Type 0 where
  bad_spec : SpecError → SolveError
  unresolved : Bytes → SolveError
  no_digest : Bytes → SolveError
  unreadable_context : SolveError
  missing_file : Bytes → Bytes → SolveError
  no_patches_dir : SolveError
  no_patch_files : SolveError
  bad_graph : GraphError → SolveError

-- What the gateway's client answers.
pub record Daemon : Type 0 where
  -- `ResolveImageConfig`, of a reference and a resolve mode: the reference and the digest
  pub resolve : Bytes → Bytes → Option (Bytes × Bytes)
  -- whether the solve of the probe of the context succeeds
  pub has_context : Bool
  -- `StatFile` on the probe
  pub has_file : Bytes → Bool
  -- `ReadDir` of patches: the paths that it lists
  pub patches : Option (List Bytes)

abbrev pub wrap_spec : Result SpecError (Unit {0}) → Result SolveError (Unit {0})
wrap_spec (ok u) = ok u
wrap_spec (err e) = err (bad_spec e)

abbrev pub wrap_graph : Result GraphError Graph → Result SolveError Graph
wrap_graph (ok g) = ok g
wrap_graph (err e) = err (bad_graph e)

-- The answer of the resolver: what stands after "@" in the reference is dropped.
abbrev pub pinned_ref : Bytes → Option (Bytes × Bytes) → Result SolveError Bytes
pinned_ref ref none = err (unresolved ref)
pinned_ref ref (some (found, digest)) =
    if is_empty digest then err (no_digest ref) else ok ((cut b'@' found).0 ++ (b'@' ∷ digest))

-- `contextFiles`: the key of the Kernelfile, and the file.
unfoldable pub context_files : Spec → List (Bytes × Bytes)
context_files s =
    (codes "CONFIG", s.config_name)
    ∷ ((if is_empty s.expect_name then [] else (codes "EXPECT", s.expect_name) ∷ [])
        ++ (if is_empty s.proxy_ca_file then [] else (codes "PROXY_CA", s.proxy_ca_file) ∷ []))

unfoldable pub has_patch : List Bytes → Bool
unfolding has_suffix
has_patch [] = false
has_patch (p ∷ ps) = has_suffix p (codes ".patch") || has_patch ps

abbrev pub check_listed : Option (List Bytes) → Result SolveError (Unit {0})
check_listed none = err no_patches_dir
check_listed (some ps) = if has_patch ps then ok tt else err no_patch_files

module _ (d : Daemon) where
  unfoldable pub check_files : List (Bytes × Bytes) → Result SolveError (Unit {0})
  check_files [] = ok tt
  check_files ((key, name) ∷ fs) =
      let rest = check_files fs in if d.has_file name then rest else err (missing_file key name)

  unfoldable pub check_patches : Spec → Result SolveError (Unit {0})
  unfolding has_patch
  check_patches s = if s.apply_patches then check_listed d.patches else ok tt

  -- `checkContext`
  unfoldable pub check_context : Spec → Result SolveError (Unit {0})
  unfolding check_files context_files check_patches
  check_context s = do
    if d.has_context then ok tt else err unreadable_context
    check_files (context_files s)
    check_patches s

  -- `resolveBase`, and the base that is pinned by it. A base with "@" is pinned already.
  unfoldable pub pin_base : Bytes → Spec → Result SolveError Spec
  unfolding contains break_at
  pin_base mode s =
      if contains s.base (codes "@")
      then ok s
      else (pinned_ref s.base (d.resolve s.base mode) >>= λ base. ok (record s { base = base }))

  module _ (sum256 : Bytes → Bytes) (action : Bytes) where
    -- `GatewaySolve`: the graph that is solved.
    unfoldable pub gateway_solve : Bytes → Spec → Result SolveError Graph
    unfolding validate pin_base check_context kernel_llb
    gateway_solve mode s = do
      wrap_spec (validate s)
      pinned ← pin_base mode s
      check_context pinned
      wrap_graph (kernel_llb sum256 action pinned)
