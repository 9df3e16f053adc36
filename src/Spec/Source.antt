-- ===== src/Spec/Source.antt =====
-- spec.go: `SourceURLFor`, `SourceExt` and `DefaultSpec`.
use kernelbuild_buildkit.Common.{
  false, List, [], ◌∷◌, ◌++◌, Bytes, codes, contains, break_at, cut, has_suffix, if◌then◌else◌,
  Option, none, some,
}
use kernelbuild_buildkit.Spec.{Spec}

-- `SourceURLFor`
unfoldable pub source_url_for : Bytes → Bytes
unfolding contains break_at
source_url_for version =
    if contains version (codes "-rc")
    then codes "https://git.kernel.org/torvalds/t/linux-" ++ (version ++ codes ".tar.gz")
    else codes "https://cdn.kernel.org/pub/linux/kernel/v"
      ++ ((cut b'.' version).0 ++ (codes ".x/linux-" ++ (version ++ codes ".tar.gz")))

first_ext : List Bytes → Bytes → Option Bytes
first_ext [] name = none
first_ext (ext ∷ exts) name =
    if has_suffix name (codes ".tar" ++ ext) then some ext else first_ext exts name

-- `SourceExt`; `none` is the error for an unsupported name.
unfoldable pub source_ext : Bytes → Option Bytes
unfolding first_ext has_suffix
source_ext name = first_ext (codes ".gz" ∷ codes ".xz" ∷ codes ".zst" ∷ []) name

abbrev default_base_digest : Bytes
default_base_digest =
    codes "sha256:33ceb71981b602c1a7443a53469e4dba065f7503eab3078a2d7a57a2ab987517"

-- `DefaultSpec`
unfoldable pub default_spec : Spec
unfolding source_url_for
default_spec = record {
  base = codes "docker.io/library/ubuntu:24.04@" ++ default_base_digest;
  kernel_version = codes "6.18.20";
  source_url = source_url_for (codes "6.18.20");
  source_sha256 = codes "a1415e257075c2fadf070f44bbb029469efbde5b6cf07d1433fe72207acff03c";
  source_local_name = [];
  source_date_epoch = codes "1785542400";
  config_name = codes "kernel.config";
  expect_name = [];
  base_make = [];
  apply_patches = false;
  https_proxy = [];
  http_proxy = [];
  no_proxy = [];
  toolchain_ready = false;
  arch = [];
  cross_compile = [];
  targets = [];
  proxy_ca_file = [];
  helper_ref = [];
  network_host = false;
  ignore_cache = false;
  seed_url = [];
  seed_region = [];
  seed_prefix = codes "kbuild-seed";
  seed_push = false;
}
