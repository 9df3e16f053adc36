-- ===== src/Spec/Accepted/Limits.antt =====
-- Of `Validate`: the seed, the proxies, the images, the architecture and the targets.
use kernelbuild_buildkit.Common.{
  true, false, not, ◌&&◌, ◌||◌, ◌≡◌, arith, Bytes, codes, is_empty, every, beq_iff, contains, ok,
  ◌⊎◌,
}
use kernelbuild_buildkit.Regex.{matches}
use kernelbuild_buildkit.Spec.{Spec, arch_or_default}
use kernelbuild_buildkit.Spec.Patterns.{
  cross_re, seed_url_re, prefix_re, file_re, proxy_re, no_proxy_re,
}
use kernelbuild_buildkit.Spec.Safety.{
  IsToken, IsToken-of, IsToken-of_empty, optional-IsToken, optional_file, is_image_ref-IsToken,
  check_targets-every, seed_url_re-Graphic, prefix_re-Graphic, file_re-Graphic, cross_re-Graphic,
  proxy_re-Graphic, no_proxy_re-Graphic,
}
use kernelbuild_buildkit.Spec.Validate.{
  is_file, check_seed, validate_seed, validate_network, is_image_ref, check_arch, is_target,
  check_targets, validate_images,
}

-- What `Validate` asks of the seed, once SeedURL is set.
pub record SeedSafe (s : Spec) : Type 0 where
  pub url_token : IsToken s.seed_url
  pub prefix_token : IsToken s.seed_prefix
  pub region_token : IsToken s.seed_region

pub check_seed-SeedSafe : (s : Spec) → check_seed s ≡ ok tt → SeedSafe s
unfolding check_seed
check_seed-SeedSafe s h = record {
  url_token = IsToken-of seed_url_re s.seed_url seed_url_re-Graphic (ground arith);
  prefix_token = IsToken-of prefix_re s.seed_prefix prefix_re-Graphic (ground arith);
  region_token = optional-IsToken file_re s.seed_region file_re-Graphic (ground arith);
}

pub validate_seed-parts :
    (s : Spec)
    → validate_seed s ≡ ok tt
    → ((s.seed_push && is_empty s.source_local_name && is_empty s.source_sha256) ≡ false)
      × ((is_empty s.seed_url ≡ true) ⊎ (check_seed s ≡ ok tt))
unfolding validate_seed
validate_seed-parts s h = ground arith

pub record NetworkSafe (s : Spec) : Type 0 where
  pub https_token : IsToken s.https_proxy
  pub http_token : IsToken s.http_proxy
  pub no_proxy_token : IsToken s.no_proxy
  pub ca_token : IsToken s.proxy_ca_file
  pub ca_plain : (is_empty s.proxy_ca_file || not (contains s.proxy_ca_file (codes "/"))) ≡ true

pub validate_network-parts :
    (s : Spec)
    → validate_network s ≡ ok tt
    → ((is_empty s.https_proxy || matches proxy_re s.https_proxy) ≡ true)
      × ((is_empty s.http_proxy || matches proxy_re s.http_proxy) ≡ true)
      × (matches no_proxy_re s.no_proxy ≡ true)
      × ((not (is_empty s.proxy_ca_file) && not (is_file s.proxy_ca_file)) ≡ false)
      × ((is_empty s.proxy_ca_file || not (contains s.proxy_ca_file (codes "/"))) ≡ true)
unfolding validate_network
validate_network-parts s h = ground arith

pub validate_network-NetworkSafe : (s : Spec) → validate_network s ≡ ok tt → NetworkSafe s
validate_network-NetworkSafe s h =
    let (https, http, no_proxies, ca, plain) = validate_network-parts s h in
    record {
      https_token = optional-IsToken proxy_re s.https_proxy proxy_re-Graphic https;
      http_token = optional-IsToken proxy_re s.http_proxy proxy_re-Graphic http;
      no_proxy_token = IsToken-of no_proxy_re s.no_proxy no_proxy_re-Graphic no_proxies;
      ca_token = optional_file s.proxy_ca_file ca;
      ca_plain = plain;
    }

pub record ImagesSafe (s : Spec) : Type 0 where
  pub helper_token : IsToken s.helper_ref
  pub base_token : IsToken s.base
  pub arch_known :
      (arch_or_default s ≡ codes "x86_64")
      ⊎ ((arch_or_default s ≡ codes "arm64") × (s.toolchain_ready ≡ true))
  pub cross_token : IsToken s.cross_compile
  pub targets_known : every is_target s.targets ≡ true

optional_image_ref : (s : Bytes) → (not (is_empty s) && not (is_image_ref s)) ≡ false → IsToken s
optional_image_ref s h = ground (arith, IsToken-of_empty s, is_image_ref-IsToken s)

check_arch-known :
    (s : Spec)
    → check_arch s ≡ ok tt
    → (arch_or_default s ≡ codes "x86_64")
      ⊎ ((arch_or_default s ≡ codes "arm64") × (s.toolchain_ready ≡ true))
unfolding check_arch
check_arch-known s h = ground (
  arith,
  beq_iff (arch_or_default s) (codes "x86_64"),
  beq_iff (arch_or_default s) (codes "arm64"),
)

pub validate_images-parts :
    (s : Spec)
    → validate_images s ≡ ok tt
    → ((not (is_empty s.helper_ref) && not (is_image_ref s.helper_ref)) ≡ false)
      × (is_image_ref s.base ≡ true)
      × (check_arch s ≡ ok tt)
      × ((is_empty s.cross_compile || matches cross_re s.cross_compile) ≡ true)
      × (check_targets s.targets ≡ ok tt)
unfolding validate_images
validate_images-parts s h = ground arith

pub validate_images-ImagesSafe : (s : Spec) → validate_images s ≡ ok tt → ImagesSafe s
validate_images-ImagesSafe s h =
    let (helper, image, arch, cross, targets) = validate_images-parts s h in
    record {
      helper_token = optional_image_ref s.helper_ref helper;
      base_token = is_image_ref-IsToken s.base image;
      arch_known = check_arch-known s arch;
      cross_token = optional-IsToken cross_re s.cross_compile cross_re-Graphic cross;
      targets_known = check_targets-every s.targets targets;
    }
