-- ===== src/Spec/Accepted.antt =====
-- What a Spec that `Validate` accepts promises to the code behind it, for the whole Spec.
pub mod Names
pub mod Origin
pub mod Limits
use kernelbuild_buildkit.Common.{◌≡◌, arith, ok, is_empty, ◌⊎◌, inl, inr, ◌&&◌, true, false}
use kernelbuild_buildkit.Spec.{Spec}
use kernelbuild_buildkit.Spec.Safety.{validate-parts}
use kernelbuild_buildkit.Spec.Validate.{check_seed, validate}
use Names.{NamesSafe, validate_names-NamesSafe}
use Origin.{SourceSafe, validate_source-SourceSafe}
use Limits.{
  SeedSafe, check_seed-SeedSafe, validate_seed-parts, NetworkSafe, validate_network-NetworkSafe,
  ImagesSafe, validate_images-ImagesSafe,
}

-- Everything that an accepted Spec guarantees.
pub record IsSafe (s : Spec) : Type 0 where
  pub names : NamesSafe s
  pub source : SourceSafe s
  pub seed : (is_empty s.seed_url ≡ true) ⊎ SeedSafe s
  pub push_pinned :
      (s.seed_push && is_empty s.source_local_name && is_empty s.source_sha256) ≡ false
  pub network : NetworkSafe s
  pub images : ImagesSafe s

-- A Spec that `Validate` accepts is safe. Made of graphic bytes, so single words, are its version, the
-- names of the expectations and of the local source, the epoch, the sum, the proxies with their
-- certificate, the images, the cross prefix, the URL of a source that is not local, and the seed's URL,
-- prefix and region where there is a seed. The names of the configuration, of the expectations and of
-- the local source are file names without "..". Each word of BASE_MAKE is a plain target: it begins
-- with a letter or a digit, has bytes of a name only and no "..". The epoch renders and the tarball's
-- extension is known; the architecture and the targets are supported; and a push of the seed has a
-- pinned source.
pub validate-IsSafe : (s : Spec) → validate s ≡ ok tt → IsSafe s
validate-IsSafe s h =
    let (names, source, seed, network, images) = validate-parts s h in
    let (pinned, settings) = validate_seed-parts s seed in
    record {
      names = validate_names-NamesSafe s names;
      source = validate_source-SourceSafe s source;
      seed = elim settings [ inl off ↦ inl off | inr on ↦ inr (check_seed-SeedSafe s on) ];
      push_pinned = pinned;
      network = validate_network-NetworkSafe s network;
      images = validate_images-ImagesSafe s images;
    }
