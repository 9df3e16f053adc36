-- ===== src/Graph/Inputs.antt =====
-- The inputs of a build that the cache key of its graph (llb.go) names: all that enters the key, and
-- nothing else.
pub mod Toolchain
use kernelbuild_buildkit.Common.{
  Bool, true, List, [], ◌∷◌, ◌≡◌, Option, none, some, Bytes, codes, beq, beq_iff, join,
  if◌then◌else◌,
}
use kernelbuild_buildkit.Graph.{src_id, src_url, src_sha, graph_of}
use kernelbuild_buildkit.Graph.Key.{key}
use kernelbuild_buildkit.Graph.Scripts.{toolchain_script, ca_only_script}
use kernelbuild_buildkit.Graph.Vertices.{
  Origin, scratch, local_dir, copied_file, MountPoint, Exec, Graph,
}
use kernelbuild_buildkit.Seed.{tree_name}
use kernelbuild_buildkit.Spec.{Spec, arch_or_default, cross_or_default, targets_or_default}

-- Two builds with the same inputs, `a` and `b` being the random texts of their pushes.
pub record IsSameInput (sum256 : Bytes → Bytes) (a b : Bytes) (s t : Spec) : Type 0 where
  pub image : s.base ≡ t.base
  pub network : s.network_host ≡ t.network_host
  pub ready : s.toolchain_ready ≡ t.toolchain_ready
  pub proxy_ca : s.proxy_ca_file ≡ t.proxy_ca_file
  pub helper : s.helper_ref ≡ t.helper_ref
  pub epoch : s.source_date_epoch ≡ t.source_date_epoch
  pub source : src_id s ≡ src_id t
  pub url : src_url s ≡ src_url t
  pub sum : src_sha s ≡ src_sha t
  pub local : s.source_local_name ≡ t.source_local_name
  pub arch : arch_or_default s ≡ arch_or_default t
  pub cross : cross_or_default s ≡ cross_or_default t
  pub targets : join (codes ",") (targets_or_default s) ≡ join (codes ",") (targets_or_default t)
  pub base_make : s.base_make ≡ t.base_make
  pub patching : s.apply_patches ≡ t.apply_patches
  pub config : s.config_name ≡ t.config_name
  pub expect : s.expect_name ≡ t.expect_name
  pub tree : tree_name sum256 s ≡ tree_name sum256 t
  pub pushing : s.seed_push ≡ t.seed_push
  pub action : s.seed_push ≡ true → a ≡ b

flag : Bool → Bytes
flag b = if b then codes "1" else codes "0"

abbrev selector_at : Bytes → List MountPoint → Bytes
selector_at name [] = []
selector_at name (m ∷ ms) = if beq m.target name then m.selector else selector_at name ms

abbrev text_of : Option Bytes → Bytes
text_of none = []
text_of (some v) = v

abbrev cache_at : Bytes → List MountPoint → Bytes
cache_at name [] = []
cache_at name (m ∷ ms) = if beq m.target name then text_of m.cache else cache_at name ms

abbrev origin_at : Bytes → List MountPoint → Origin
origin_at name [] = scratch
origin_at name (m ∷ ms) = if beq m.target name then m.origin else origin_at name ms

-- The image that a state is copied from; none for a local one.
abbrev image_of : Origin → Bytes
image_of (local_dir name paths hint shown) = []
image_of scratch = []
image_of (copied_file ref path shown) = ref

module _ (sum256 : Bytes → Bytes) where
  abbrev hashed_key : Bytes → Spec → Graph
  hashed_key a s = key (graph_of sum256 a s)
