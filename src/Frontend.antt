-- ===== src/Frontend.antt =====
-- cmd/kbuild-frontend/main.go: how the options of a build become a Spec.
pub mod Build
pub mod Layers
pub mod Pin
use kernelbuild_buildkit.Common.{
  ℕ, ◌==◌, Bool, true, false, not, ◌&&◌, ◌||◌, List, [], ◌∷◌, ◌++◌, Option, none, some, Bytes,
  codes, beq, is_empty, contains, fields_func, if◌then◌else◌, Result, ok, err, ◌>>=◌,
}
use kernelbuild_buildkit.Spec.{Spec}
use kernelbuild_buildkit.Spec.Source.{source_url_for}

-- The map of options of the gateway protocol.
abbrev pub Opts : Type 0
Opts = Bytes → Option Bytes

abbrev value_or_empty : Option Bytes → Bytes
value_or_empty none = []
value_or_empty (some v) = v

-- `opts[key]`: the empty string for a missing key.
abbrev pub opt : Opts → Bytes → Bytes
opt opts key = value_or_empty (opts key)

-- What `platforms.Parse` gives, as far as it is read.
pub record Platform : Type 0 where
  pub os : Bytes
  pub architecture : Bytes

pub data OptError : Type 0 where
  bad_bool : Bytes → Bytes → OptError
  many_platforms : Bytes → OptError
  bad_platform : Bytes → OptError
  not_linux : Bytes → OptError
  unsupported_platform : Bytes → OptError

-- `if v := opts[key]; v != "" { *dst = v }`
abbrev pub override : Bytes → Bytes → Bytes
override v old = if is_empty v then old else v

-- `optBool`
unfoldable pub opt_bool : Opts → Bytes → Bool → Result OptError Bool
unfolding beq
opt_bool opts key old =
    if is_empty (opt opts key)
    then ok old
    else if beq (opt opts key) (codes "true")
    then ok true
    else if beq (opt opts key) (codes "false")
    then ok false
    else err (bad_bool key (opt opts key))

unfoldable pub set_version : Bytes → Spec → Spec
unfolding beq source_url_for
set_version v s =
    if not (is_empty v) && not (beq v s.kernel_version)
    then record s { kernel_version = v; source_url = source_url_for v; source_sha256 = [] }
    else s

unfoldable pub set_url : Bytes → Spec → Spec
unfolding beq
set_url v s =
    if not (is_empty v) && not (beq v s.source_url)
    then record s { source_url = v; source_sha256 = [] }
    else s

-- The first three options: the version, the URL, the pin.
unfoldable pub apply_source : Opts → Spec → Spec
unfolding set_version set_url
apply_source opts s =
    let t =
      set_url (opt opts (codes "source-url")) (set_version (opt opts (codes "kernel-version")) s) in
    record t { source_sha256 = override (opt opts (codes "source-sha256")) t.source_sha256 }

abbrev pub apply_names : Opts → Spec → Spec
apply_names opts s = record s {
  source_date_epoch = override (opt opts (codes "source-date-epoch")) s.source_date_epoch;
  config_name = override (opt opts (codes "config")) s.config_name;
  expect_name = override (opt opts (codes "expect")) s.expect_name;
  base_make = override (opt opts (codes "base-make")) s.base_make;
  proxy_ca_file = override (opt opts (codes "proxy-ca")) s.proxy_ca_file;
  helper_ref = override (opt opts (codes "helper-ref")) s.helper_ref;
  source_local_name = override (opt opts (codes "src-name")) s.source_local_name;
  base = override (opt opts (codes "base")) s.base;
}

abbrev pub apply_arch : Opts → Spec → Spec
apply_arch opts s = record s {
  arch = override (opt opts (codes "arch")) s.arch;
  cross_compile = override (opt opts (codes "cross-compile")) s.cross_compile;
}

-- The first of the two spellings that is set.
abbrev pub either_spelling : Opts → Bytes → Bytes → Bytes → Bytes
either_spelling opts lower upper old = override (opt opts lower) (override (opt opts upper) old)

abbrev pub apply_proxies : Opts → Spec → Spec
apply_proxies opts s = record s {
  https_proxy =
      either_spelling opts (codes "build-arg:https_proxy") (codes "build-arg:HTTPS_PROXY")
        s.https_proxy;
  http_proxy =
      either_spelling opts (codes "build-arg:http_proxy") (codes "build-arg:HTTP_PROXY")
        s.http_proxy;
  no_proxy =
      either_spelling opts (codes "build-arg:no_proxy") (codes "build-arg:NO_PROXY") s.no_proxy;
}

unfoldable pub apply_network : Opts → Spec → Spec
unfolding beq
apply_network opts s = record s {
  network_host = beq (opt opts (codes "force-network-mode")) (codes "host") || s.network_host;
}

abbrev pub is_separator : ℕ → Bool
is_separator c = c == b',' || (c == b' ' || c == 9)

unfoldable pub apply_targets : Opts → Spec → Spec
unfolding fields_func
apply_targets opts s =
    let v = opt opts (codes "targets") in
    if is_empty v then s else record s { targets = fields_func is_separator v }

abbrev pub is_set : Option Bytes → Bool
is_set none = false
is_set (some v) = true

abbrev pub apply_no_cache : Opts → Spec → Spec
apply_no_cache opts s = record s {
  ignore_cache = is_set (opts (codes "no-cache")) || s.ignore_cache;
}

-- A platform without a slash is an architecture of linux.
unfoldable pub full_platform : Bytes → Bytes
unfolding contains
full_platform p = if contains p (codes "/") then p else codes "linux/" ++ p

unfoldable pub arch_of : Bytes → Option Platform → Result OptError Bytes
unfolding beq
arch_of p none = err (bad_platform p)
arch_of p (some pp) =
    if not (is_empty pp.os) && not (beq pp.os (codes "linux"))
    then err (not_linux p)
    else if beq pp.architecture (codes "arm64")
    then ok (codes "arm64")
    else if beq pp.architecture (codes "amd64")
    then ok (codes "x86_64")
    else err (unsupported_platform p)

unfoldable pub apply_ready : Opts → Spec → Result OptError Spec
unfolding opt_bool
apply_ready opts s = do
  ready ← opt_bool opts (codes "toolchain-ready") s.toolchain_ready
  ok (record s { toolchain_ready = ready })

unfoldable pub apply_patching : Opts → Spec → Result OptError Spec
unfolding opt_bool
apply_patching opts s = do
  patches ← opt_bool opts (codes "apply-patches") s.apply_patches
  ok (record s { apply_patches = patches })

unfoldable pub apply_push : Opts → Spec → Result OptError Spec
unfolding opt_bool
apply_push opts s = do
  push ← opt_bool opts (codes "seed-push") s.seed_push
  ok (record s { seed_push = push })

-- What stands between the first option that can fail and the platform.
abbrev pub before_platform : Opts → Spec → Spec
before_platform opts s = apply_network opts (apply_proxies opts (apply_arch opts s))

-- `platforms.Parse` is a parameter.
module _ (parse_platform : Bytes → Option Platform) where
  -- `archForPlatform`
  unfoldable pub arch_for_platform : Bytes → Result OptError Bytes
  unfolding arch_of full_platform contains
  arch_for_platform p =
      if contains p (codes ",")
      then err (many_platforms p)
      else arch_of (full_platform p) (parse_platform (full_platform p))

  unfoldable pub apply_platform : Opts → Spec → Result OptError Spec
  unfolding arch_for_platform
  apply_platform opts s =
      let p = opt opts (codes "platform") in
      if is_empty p then ok s else (arch_for_platform p >>= λ arch. ok (record s { arch = arch }))

  -- `applyOpts`
  unfoldable pub apply_opts : Opts → Spec → Result OptError Spec
  unfolding apply_ready apply_source apply_network apply_targets apply_platform apply_patching
      apply_push
  apply_opts opts s = do
    ready ← apply_ready opts (apply_names opts (apply_source opts s))
    placed ← apply_platform opts (before_platform opts ready)
    patched ← apply_patching opts (apply_targets opts placed)
    apply_push opts (apply_no_cache opts patched)
