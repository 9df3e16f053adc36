-- ===== src/Spec.antt =====
-- spec.go: the Spec record, its defaults, and the small methods on it, those of llb.go included.
pub mod Source
pub mod Patterns
pub mod Timestamp
pub mod Validate
pub mod Safety
pub mod Accepted
use kernelbuild_buildkit.Common.{
  Bool, true, false, ◌||◌, not, List, [], ◌∷◌, ◌++◌, Bytes, codes, beq, is_empty, if◌then◌else◌,
}

-- `Spec`. Strings are byte lists; the empty one stands for an unset field, as in Go.
pub record Spec : Type 0 where
  pub base : Bytes
  pub kernel_version : Bytes
  pub source_url : Bytes
  pub source_sha256 : Bytes
  pub source_local_name : Bytes
  pub source_date_epoch : Bytes
  pub config_name : Bytes
  pub expect_name : Bytes
  pub base_make : Bytes
  pub apply_patches : Bool
  pub https_proxy : Bytes
  pub http_proxy : Bytes
  pub no_proxy : Bytes
  pub toolchain_ready : Bool
  pub arch : Bytes
  pub cross_compile : Bytes
  pub targets : List Bytes
  pub proxy_ca_file : Bytes
  pub helper_ref : Bytes
  pub network_host : Bool
  pub ignore_cache : Bool
  pub seed_url : Bytes
  pub seed_region : Bytes
  pub seed_prefix : Bytes
  pub seed_push : Bool

-- `archOrDefault`
unfoldable pub arch_or_default : Spec → Bytes
arch_or_default s = if is_empty s.arch then codes "x86_64" else s.arch

-- `crossOrDefault`. A missing key of the map gives the empty string.
unfoldable pub cross_or_default : Spec → Bytes
unfolding arch_or_default beq
cross_or_default s =
    if not (is_empty s.cross_compile) || beq (arch_or_default s) (codes "x86_64")
    then s.cross_compile
    else if beq (arch_or_default s) (codes "arm64")
    then codes "aarch64-linux-gnu-"
    else []

abbrev pub is_nil {ℓ} : {A : Type ℓ} → List A → Bool
is_nil [] = true
is_nil (x ∷ xs) = false

-- `targetsOrDefault`
unfoldable pub targets_or_default : Spec → List Bytes
unfolding arch_or_default beq
targets_or_default s =
    if not (is_nil s.targets)
    then s.targets
    else if beq (arch_or_default s) (codes "arm64")
    then codes "vmlinux" ∷ codes "image" ∷ []
    else codes "vmlinux" ∷ []

-- `patchedSuffix`
unfoldable pub patched_suffix : Spec → Bytes
patched_suffix s = if s.apply_patches then codes "-patched" else []
