-- ===== src/Spec/Validate.antt =====
-- spec.go: `Spec.Validate`, its checks in the source's order, with the source's early returns.
use kernelbuild_buildkit.Common.{
  Bool, not, ◌&&◌, ◌||◌, List, [], ◌∷◌, Bytes, codes, beq, is_empty, contains, fields, has_prefix,
  none, some, Result, ok, err, ◌>>◌, reject, if◌then◌else◌,
}
use kernelbuild_buildkit.Regex.{matches}
use kernelbuild_buildkit.Spec.{Spec, arch_or_default}
use kernelbuild_buildkit.Spec.Patterns.{
  version_re, file_re, prefix_re, sha256_re, base_make_re, cross_re, epoch_re, seed_url_re,
  image_ref_re, proxy_re, no_proxy_re, token_re,
}
use kernelbuild_buildkit.Spec.Source.{source_ext}
use kernelbuild_buildkit.Spec.Timestamp.{EpochError, timestamp}

-- One constructor for each error that `Validate` returns, with the value that the message quotes.
pub data SpecError : Type 0 where
  bad_kernel_version : Bytes → SpecError
  bad_config : Bytes → SpecError
  bad_expect : Bytes → SpecError
  bad_base_make : Bytes → SpecError
  bad_src_name : Bytes → SpecError
  bad_epoch : Bytes → SpecError
  epoch_refused : EpochError → SpecError
  url_not_https : Bytes → SpecError
  url_not_token : Bytes → SpecError
  unsupported_source : Bytes → SpecError
  bad_sha256 : Bytes → SpecError
  unpinned_seed_push : SpecError
  bad_seed_url : Bytes → SpecError
  bad_seed_prefix : Bytes → SpecError
  bad_seed_region : Bytes → SpecError
  bad_proxy : Bytes → SpecError
  bad_no_proxy : Bytes → SpecError
  bad_proxy_ca : Bytes → SpecError
  bad_helper_ref : Bytes → SpecError
  bad_base : Bytes → SpecError
  arm64_without_toolchain : SpecError
  bad_arch : Bytes → SpecError
  bad_cross_compile : Bytes → SpecError
  bad_target : Bytes → SpecError

abbrev pub Checked : Type 0
Checked = Result SpecError (Unit {0})

-- `strings.Contains(s, "..")`
unfoldable pub has_dots : Bytes → Bool
unfolding contains
has_dots s = contains s (codes "..")

-- A file name of the context: `fileRe` and no "..".
unfoldable pub is_file : Bytes → Bool
unfolding matches file_re has_dots
is_file s = matches file_re s && not (has_dots s)

unfoldable pub is_base_make : Bytes → Bool
unfolding matches base_make_re has_dots
is_base_make s = matches base_make_re s && not (has_dots s)

-- The loop over the tokens of BaseMake.
unfoldable pub check_base_make : List Bytes → Checked
unfolding is_base_make
check_base_make [] = ok tt
check_base_make (tok ∷ toks) = do
  reject (not (is_base_make tok)) (bad_base_make tok)
  check_base_make toks

unfoldable pub validate_names : Spec → Checked
unfolding matches version_re is_file check_base_make fields
validate_names s = do
  reject (not (matches version_re s.kernel_version)) (bad_kernel_version s.kernel_version)
  reject (not (is_file s.config_name)) (bad_config s.config_name)
  reject (not (is_empty s.expect_name) && not (is_file s.expect_name)) (bad_expect s.expect_name)
  check_base_make (fields s.base_make)
  reject (not (is_empty s.source_local_name) && not (is_file s.source_local_name))
      (bad_src_name s.source_local_name)

-- The error of `Timestamp`, if it has one.
unfoldable pub check_epoch : Bytes → Checked
unfolding timestamp
check_epoch epoch = elim (timestamp epoch) [ ok t ↦ ok tt | err e ↦ err (epoch_refused e) ]

unfoldable pub check_ext : Bytes → Checked
unfolding source_ext
check_ext name = elim (source_ext name) [ some ext ↦ ok tt | none ↦ err (unsupported_source name) ]

unfoldable pub check_url : Bytes → Checked
unfolding has_prefix matches token_re check_ext
check_url url = do
  reject (not (has_prefix url (codes "https://"))) (url_not_https url)
  reject (not (matches token_re url)) (url_not_token url)
  check_ext url

-- The source's URL, or in local mode its file name.
unfoldable pub check_location : Spec → Checked
unfolding check_url check_ext
check_location s =
    if is_empty s.source_local_name then check_url s.source_url else check_ext s.source_local_name

unfoldable pub validate_source : Spec → Checked
unfolding matches epoch_re check_epoch check_location sha256_re
validate_source s = do
  reject (not (matches epoch_re s.source_date_epoch)) (bad_epoch s.source_date_epoch)
  check_epoch s.source_date_epoch
  check_location s
  reject (not (is_empty s.source_sha256) && not (matches sha256_re s.source_sha256))
      (bad_sha256 s.source_sha256)

-- What is asked of the seed's settings once SeedURL is set.
unfoldable pub check_seed : Spec → Checked
unfolding matches seed_url_re prefix_re has_dots file_re
check_seed s = do
  reject (not (matches seed_url_re s.seed_url)) (bad_seed_url s.seed_url)
  reject (not (matches prefix_re s.seed_prefix) || has_dots s.seed_prefix)
      (bad_seed_prefix s.seed_prefix)
  reject (not (is_empty s.seed_region) && not (matches file_re s.seed_region))
      (bad_seed_region s.seed_region)

unfoldable pub validate_seed : Spec → Checked
unfolding check_seed
validate_seed s = do
  reject (s.seed_push && is_empty s.source_local_name && is_empty s.source_sha256)
      unpinned_seed_push
  if is_empty s.seed_url then ok tt else check_seed s

unfoldable pub validate_network : Spec → Checked
unfolding matches proxy_re no_proxy_re is_file contains
validate_network s = do
  reject (not (is_empty s.https_proxy) && not (matches proxy_re s.https_proxy))
      (bad_proxy s.https_proxy)
  reject (not (is_empty s.http_proxy) && not (matches proxy_re s.http_proxy))
      (bad_proxy s.http_proxy)
  reject (not (matches no_proxy_re s.no_proxy)) (bad_no_proxy s.no_proxy)
  reject
      (not (is_empty s.proxy_ca_file)
        && (not (is_file s.proxy_ca_file) || contains s.proxy_ca_file (codes "/")))
      (bad_proxy_ca s.proxy_ca_file)

unfoldable pub is_image_ref : Bytes → Bool
unfolding matches image_ref_re has_dots
is_image_ref s = matches image_ref_re s && not (has_dots s)

-- The switch on the architecture.
unfoldable pub check_arch : Spec → Checked
unfolding arch_or_default beq
check_arch s =
    if beq (arch_or_default s) (codes "x86_64")
    then ok tt
    else if beq (arch_or_default s) (codes "arm64")
    then reject (not s.toolchain_ready) arm64_without_toolchain
    else err (bad_arch s.arch)

-- The tokens of Spec.Targets.
unfoldable pub is_target : Bytes → Bool
unfolding beq
is_target t =
    beq t (codes "vmlinux")
    || beq t (codes "image")
    || beq t (codes "modules")
    || beq t (codes "config")
    || beq t (codes "kconfigs")

unfoldable pub check_targets : List Bytes → Checked
unfolding is_target
check_targets [] = ok tt
check_targets (t ∷ ts) = do reject (not (is_target t)) (bad_target t); check_targets ts

unfoldable pub validate_images : Spec → Checked
unfolding is_image_ref check_arch matches cross_re has_dots check_targets
validate_images s = do
  reject (not (is_empty s.helper_ref) && not (is_image_ref s.helper_ref))
      (bad_helper_ref s.helper_ref)
  reject (not (is_image_ref s.base)) (bad_base s.base)
  check_arch s
  reject
      (not (is_empty s.cross_compile)
        && (not (matches cross_re s.cross_compile) || has_dots s.cross_compile))
      (bad_cross_compile s.cross_compile)
  check_targets s.targets

-- `Validate`
unfoldable pub validate : Spec → Checked
unfolding validate_names validate_source validate_seed validate_network validate_images
validate s = do
  validate_names s
  validate_source s
  validate_seed s
  validate_network s
  validate_images s
