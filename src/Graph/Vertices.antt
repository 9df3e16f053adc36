-- ===== src/Graph/Vertices.antt =====
-- The graph that `KernelLLB` (llb.go) returns, as the value that its calls of the llb package put
-- together: a base image, the toolchain vertex over it, if there is one, and the compile vertex.
use kernelbuild_buildkit.Common.{Bool, List, Option, Bytes}

-- `llb.Local` and the other states that are mounted.
pub data Origin : Type 0 where
  -- llb.Local: the name, the paths that are followed, the hint, the vertex's name
  local_dir : Bytes → List Bytes → Bytes → Bytes → Origin
  scratch : Origin
  -- a file copied out of an image into a scratch state: the image, the path, the vertex's name
  copied_file : Bytes → Bytes → Bytes → Origin

-- `llb.AddMount`; `cache` is the id of a locked persistent cache.
pub record MountPoint : Type 0 where
  pub target : Bytes
  pub origin : Origin
  pub selector : Bytes
  pub read_only : Bool
  pub cache : Option Bytes

-- `llb.ProxyEnv`
pub record ProxyEnv : Type 0 where
  pub http_proxy : Bytes
  pub https_proxy : Bytes
  pub no_proxy : Bytes

-- The options of a `Run`.
pub record Exec : Type 0 where
  pub args : List Bytes
  pub env : List (Bytes × Bytes)
  pub dir : Bytes
  pub mounts : List MountPoint
  pub optional_secrets : List (Bytes × Bytes)
  pub ignore_cache : Bool
  pub custom_name : Bytes
  pub proxy : Option ProxyEnv

pub record Graph : Type 0 where
  pub image : Bytes
  pub host_network : Bool
  pub toolchain : Option Exec
  pub compile : Exec
  -- the mount whose state is the result
  pub output : MountPoint
