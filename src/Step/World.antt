-- ===== src/Step/World.antt =====
-- What the runner finds around the mount: its environment variables, the other mounts, and the parts
-- of the step that are modelled apart from it or not at all, as functions.
use kernelbuild_buildkit.Common.{Bool, List, Option, Bytes}
use kernelbuild_buildkit.Step.Mount.{Mount}

-- The variables of the contract that prepareTree and configure read.
pub record Env : Type 0 where
  pub src_id : Bytes
  pub src_url : Bytes
  pub src_sha256 : Bytes
  pub src_local : Bytes
  pub apply_patches : Bytes
  pub base_make : Bytes
  pub karch : Bytes
  pub cross_compile : Bytes

-- What `download` did: the whole body, or an error and what it had written by then.
pub data Fetched : Type 0 where
  whole : Bytes → Fetched
  cut_short : Option Bytes → Fetched

-- What an extraction writes at the top level of the mount: entries in the order of the stream, and
-- whether it came to the end.
pub record Unpacked : Type 0 where
  pub entries : List (Bytes × Bytes)
  pub complete : Bool

-- What `seedPull` finds: an error before the stream, no such object, or the stream.
pub data Pulled : Type 0 where
  unreachable : Pulled
  no_such_key : Pulled
  stream : Unpacked → Pulled

-- A run of make: the mounts it goes through, the last one included, and whether it succeeds.
pub record Made : Type 0 where
  pub between : List Mount
  pub left : Mount
  pub success : Bool

pub record World : Type 0 where
  pub env : Env
  -- os.ReadFile of a name under /src, and of /kernel.config
  pub src_file : Bytes → Option Bytes
  pub kernel_config : Option Bytes
  -- the patches of the series in the order of their names, concatenated; none if there is none
  pub patch_series : Option Bytes
  -- hex of SHA-256
  pub sha256_hex : Bytes → Bytes
  pub download : Bytes → Fetched
  pub unpack : Bytes → Bytes → Unpacked
  -- `applyPatches`: the entries it writes, and whether it comes to the end
  pub patched : Mount → Unpacked
  pub pull_seed : Pulled
  pub make : List Bytes → Mount → Made
