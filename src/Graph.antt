-- ===== src/Graph.antt =====
-- llb.go: `KernelLLB`, which turns a Spec into the graph of a build.
pub mod Scripts
pub mod Vertices
pub mod Key
pub mod Inputs
pub mod Contract
use kernelbuild_buildkit.Common.{
  Bool, true, false, not, ◌&&◌, ◌||◌, List, [], ◌∷◌, ◌++◌, Option, none, some, Bytes, codes, beq,
  is_empty, contains, join, if◌then◌else◌, Result, ok, err, ◌>>=◌, ◌>>◌, reject,
}
use kernelbuild_buildkit.Seed.{tree_name}
use kernelbuild_buildkit.Spec.{Spec, arch_or_default, cross_or_default, targets_or_default}
use kernelbuild_buildkit.Spec.Validate.{SpecError, validate}
use Scripts.{toolchain_script, ca_only_script}
use Vertices.{Origin, local_dir, scratch, copied_file, MountPoint, ProxyEnv, Exec, Graph}

pub data GraphError : Type 0 where
  invalid_spec : SpecError → GraphError
  unpinned_base : Bytes → GraphError

abbrev wrap : Result SpecError (Unit {0}) → Result GraphError (Unit {0})
wrap (ok u) = ok u
wrap (err e) = err (invalid_spec e)

abbrev when {ℓ} : {A : Type ℓ} → Bool → List A → List A
when b xs = if b then xs else []

unfoldable pub proxy_of : Spec → Option ProxyEnv
proxy_of s =
    let direct = codes "localhost,127.0.0.1" in
    if not (is_empty s.https_proxy) || not (is_empty s.http_proxy) || not (is_empty s.no_proxy)
    then some (record {
      http_proxy = s.http_proxy;
      https_proxy = s.https_proxy;
      no_proxy = if is_empty s.no_proxy then direct else direct ++ (b',' ∷ s.no_proxy);
    })
    else none

abbrev load_name : Bytes → Bytes
load_name what = codes "[internal] load " ++ what

abbrev bind_mount : Bytes → Origin → Bytes → MountPoint
bind_mount target origin selector = record {
  target = target;
  origin = origin;
  selector = selector;
  read_only = true;
  cache = none;
}

abbrev ca_mount : Spec → MountPoint
ca_mount s =
    bind_mount (codes "/certs")
      (local_dir (codes "context") (s.proxy_ca_file ∷ []) (codes "kbuild-ca")
        (load_name s.proxy_ca_file))
      []

abbrev toolchain_exec : Spec → Exec
toolchain_exec s = record {
  args =
      codes "bash"
      ∷ codes "-c"
      ∷ (if s.toolchain_ready then ca_only_script else toolchain_script)
      ∷ [];
  env =
      (codes "DEBIAN_FRONTEND", codes "noninteractive")
      ∷ when (not (is_empty s.proxy_ca_file)) ((codes "CA_FILE", s.proxy_ca_file) ∷ []);
  dir = [];
  mounts = when (not (is_empty s.proxy_ca_file)) (ca_mount s ∷ []);
  optional_secrets = [];
  ignore_cache = s.ignore_cache;
  custom_name = codes "[toolchain] install build deps";
  proxy = proxy_of s;
}

unfoldable pub toolchain_of : Spec → Option Exec
unfolding proxy_of toolchain_script ca_only_script
toolchain_of s =
    if not s.toolchain_ready || not (is_empty s.proxy_ca_file)
    then some (toolchain_exec s)
    else none

-- `srcID`, `srcURL` and `srcSHA`
unfoldable pub src_id : Spec → Bytes
src_id s =
    if not (is_empty s.source_local_name)
    then codes "local:" ++ s.source_local_name
    else if is_empty s.source_sha256
    then s.source_url
    else s.source_sha256

abbrev pub src_url : Spec → Bytes
src_url s = if is_empty s.source_local_name then s.source_url else []

abbrev pub src_sha : Spec → Bytes
src_sha s = if is_empty s.source_local_name then s.source_sha256 else []

abbrev follow : Spec → List Bytes
follow s =
    s.config_name
    ∷ (when (not (is_empty s.expect_name)) (s.expect_name ∷ [])
        ++ when s.apply_patches (codes "patches" ∷ []))

abbrev context_dir : Spec → Origin
context_dir s =
    local_dir (codes "context") (follow s) (codes "kbuild-context")
      (load_name (join (codes ", ") (follow s)))

-- The runner, out of the frontend's image or from the client.
unfoldable pub helper_of : Spec → Origin
helper_of s =
    if is_empty s.helper_ref
    then local_dir (codes "helper") (codes "kbuild-step" ∷ []) (codes "kbuild-helper")
        (load_name (codes "kbuild-step"))
    else copied_file s.helper_ref (codes "/kbuild-step")
        (load_name (codes "kbuild-step from " ++ s.helper_ref))

abbrev secret : Bytes → Bytes × Bytes
secret id = (codes "/run/secrets/" ++ id, id)

-- `sum256` is SHA-256, `action` the text that rand.Text() gives.
module _ (sum256 : Bytes → Bytes) (action : Bytes) where
  -- The environment of the compile vertex.
  unfoldable pub compile_env : Spec → List (Bytes × Bytes)
  unfolding src_id arch_or_default cross_or_default targets_or_default join
  compile_env s =
      (codes "SOURCE_DATE_EPOCH", s.source_date_epoch)
      ∷ (codes "KBUILD_BUILD_USER", codes "builder")
      ∷ (codes "KBUILD_BUILD_HOST", codes "linux")
      ∷ (codes "TZ", codes "UTC")
      ∷ (codes "SRC_ID", src_id s)
      ∷ (codes "SRC_URL", src_url s)
      ∷ (codes "SRC_SHA256", src_sha s)
      ∷ (codes "SRC_LOCAL", s.source_local_name)
      ∷ (codes "KARCH", arch_or_default s)
      ∷ (codes "CROSS_COMPILE", cross_or_default s)
      ∷ (codes "TARGETS", join (codes ",") (targets_or_default s))
      ∷ (codes "APPLY_PATCHES", if s.apply_patches then codes "1" else codes "0")
      ∷ (codes "BASE_MAKE", s.base_make)
      ∷ when s.seed_push ((codes "SEED_PUSH", codes "1") ∷ (codes "SEED_ACTION", action) ∷ [])

  -- The persistent tree: its cache is named by the version, the architecture, the compiler and the
  -- patches.
  unfoldable pub tree_mount : Spec → MountPoint
  unfolding tree_name
  tree_mount s = record {
    target = codes "/build";
    origin = scratch;
    selector = [];
    read_only = false;
    cache = some (codes "kernel-build-" ++ tree_name sum256 s);
  }

  abbrev src_mount : Spec → MountPoint
  src_mount s =
      bind_mount (codes "/src")
        (local_dir (codes "src") (s.source_local_name ∷ []) (codes "kbuild-src")
          (load_name s.source_local_name))
        []

  unfoldable pub compile_mounts : Spec → List MountPoint
  unfolding helper_of tree_mount join
  compile_mounts s =
      bind_mount (codes "/helper") (helper_of s) []
      ∷ bind_mount (codes "/kernel.config") (context_dir s) s.config_name
      ∷ tree_mount s
      ∷ (when s.apply_patches (bind_mount (codes "/patches") (context_dir s) (codes "patches") ∷ [])
          ++ (when (not (is_empty s.expect_name))
                (bind_mount (codes "/kernel.expect") (context_dir s) s.expect_name ∷ [])
              ++ when (not (is_empty s.source_local_name)) (src_mount s ∷ [])))

  abbrev compile_exec : Spec → Exec
  compile_exec s = record {
    args = codes "/helper/kbuild-step" ∷ [];
    env = compile_env s;
    dir = codes "/build";
    mounts = compile_mounts s;
    optional_secrets =
        secret (codes "seed_access_key")
        ∷ secret (codes "seed_secret_key")
        ∷ secret (codes "seed_cfg")
        ∷ [];
    ignore_cache = s.ignore_cache;
    custom_name =
        codes "[compile] linux-"
        ++ (s.kernel_version
            ++ (b' '
                ∷ (arch_or_default s
                    ++ (codes " -> " ++ join (codes ",") (targets_or_default s)))));
    proxy = proxy_of s;
  }

  unfoldable pub graph_of : Spec → Graph
  unfolding toolchain_of compile_env compile_mounts proxy_of arch_or_default targets_or_default join
  graph_of s = record {
    image = s.base;
    host_network = s.network_host;
    toolchain = toolchain_of s;
    compile = compile_exec s;
    output = record {
      target = codes "/out";
      origin = scratch;
      selector = [];
      read_only = false;
      cache = none;
    };
  }

  -- `KernelLLB`
  unfoldable pub kernel_llb : Spec → Result GraphError Graph
  unfolding validate contains graph_of
  kernel_llb s = do
    wrap (validate s)
    reject (not (contains s.base (codes "@"))) (unpinned_base s.base)
    ok (graph_of s)
