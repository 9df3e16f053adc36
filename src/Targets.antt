-- ===== src/Targets.antt =====
-- cmd/kbuild-step/main.go: `resolveTargets` and `modulesEnabled`.
pub mod Contract
pub mod Resolve
pub mod Modules
use kernelbuild_buildkit.Common.{
  ℕ, ◌==◌, Bool, true, false, not, ◌&&◌, ◌||◌, List, [], ◌∷◌, ◌++◌, if◌then◌else◌, Option, none,
  some, Bytes, codes, beq, is_empty, split, has_prefix, contains, Result, ok, err, ◌>>=◌,
}

-- What `resolveTargets` returns; the map of artifacts is a list of pairs.
pub record Plan : Type 0 where
  pub make_targets : List Bytes
  pub artifacts : List (Bytes × Bytes)
  pub want_modules : Bool
  pub want_config : Bool
  pub want_kconfigs : Bool

pub data TargetError : Type 0 where
  no_targets : TargetError
  unknown_target : Bytes → TargetError

-- `artifacts[src] = dst`
unfoldable pub set_artifact : Bytes → Bytes → List (Bytes × Bytes) → List (Bytes × Bytes)
unfolding beq
set_artifact src dst [] = (src, dst) ∷ []
set_artifact src dst ((s, d) ∷ m) =
    if beq s src then (s, dst) ∷ m else (s, d) ∷ set_artifact src dst m

abbrev pub lift : Bytes → Bytes → Bytes → Plan → Plan
lift target src dst r = record r {
  make_targets = r.make_targets ++ (target ∷ []);
  artifacts = set_artifact src dst r.artifacts;
}

-- The arch's bootable image.
unfoldable pub add_image : Bytes → Plan → Plan
unfolding beq
add_image arch r =
    if beq arch (codes "arm64")
    then lift (codes "Image") (codes "arch/arm64/boot/Image") (codes "/out/Image") r
    else lift (codes "bzImage") (codes "arch/x86/boot/bzImage") (codes "/out/bzImage") r

-- The switch on a token.
unfoldable pub add_target : Bytes → Bytes → Plan → Result TargetError Plan
unfolding beq add_image
add_target arch tgt r =
    if beq tgt (codes "vmlinux")
    then ok (lift (codes "vmlinux") (codes "vmlinux") (codes "/out/vmlinux") r)
    else if beq tgt (codes "image")
    then ok (add_image arch r)
    else if beq tgt (codes "modules")
    then ok
        (record r { make_targets = r.make_targets ++ (codes "modules" ∷ []); want_modules = true })
    else if beq tgt (codes "config")
    then ok (record r { want_config = true })
    else if beq tgt (codes "kconfigs")
    then ok (record r { want_kconfigs = true })
    else err (unknown_target tgt)

unfoldable pub add_targets : Bytes → List Bytes → Plan → Result TargetError Plan
unfolding add_target
add_targets arch [] r = ok r
add_targets arch (t ∷ ts) r = do q ← add_target arch t r; add_targets arch ts q

abbrev pub no_plan : Plan
no_plan = record {
  make_targets = [];
  artifacts = [];
  want_modules = false;
  want_config = false;
  want_kconfigs = false;
}

-- `resolveTargets`, with the values of KARCH and TARGETS.
unfoldable pub resolve_targets : Bytes → Bytes → Result TargetError Plan
unfolding add_targets split
resolve_targets arch raw =
    if is_empty raw then err no_targets else add_targets arch (split b',' raw) no_plan

-- `modulesEnabled`
unfoldable pub modules_enabled : Bytes → Bool
unfolding has_prefix contains
modules_enabled config =
    has_prefix config (codes "CONFIG_MODULES=y\n") || contains config (codes "\nCONFIG_MODULES=y\n")
