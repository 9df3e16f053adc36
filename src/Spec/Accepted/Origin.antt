-- ===== src/Spec/Accepted/Origin.antt =====
-- Of `Validate`: the epoch and the source tarball.
use kernelbuild_buildkit.Common.{
  Bool, true, false, not, ◌||◌, ◌≡◌, refl, arith, Bytes, is_empty, ok, err, Result, Option, none,
  some, if◌then◌else◌, >>-eq-ok, reject,
}
use kernelbuild_buildkit.Regex.{matches}
use kernelbuild_buildkit.Spec.{Spec}
use kernelbuild_buildkit.Spec.Patterns.{sha256_re, epoch_re, token_re}
use kernelbuild_buildkit.Spec.Source.{source_ext}
use kernelbuild_buildkit.Spec.Timestamp.{timestamp}
use kernelbuild_buildkit.Spec.Safety.{
  IsToken, IsToken-of, optional-IsToken, not_rejected, unless_rejected, epoch_re-Graphic,
  sha256_re-Graphic, token_re-Graphic,
}
use kernelbuild_buildkit.Spec.Validate.{
  check_epoch, check_ext, check_url, check_location, validate_source,
}

-- The name that the source's extension is read from.
abbrev pub source_name : Spec → Bytes
source_name s = if is_empty s.source_local_name then s.source_url else s.source_local_name

pub record SourceSafe (s : Spec) : Type 0 where
  pub epoch_token : IsToken s.source_date_epoch
  pub epoch_renders : (t : Bytes) × (timestamp s.source_date_epoch ≡ ok t)
  pub url_token : is_empty s.source_local_name ≡ true → IsToken s.source_url
  pub ext_known : (e : Bytes) × (source_ext (source_name s) ≡ some e)
  pub sha_token : IsToken s.source_sha256

check_epoch-renders : (e : Bytes) → check_epoch e ≡ ok tt → (t : Bytes) × (timestamp e ≡ ok t)
unfolding check_epoch
check_epoch-renders e h = split_on (timestamp e) refl
  where
    split_on : (r : Result _ Bytes) → timestamp e ≡ r → (t : Bytes) × (timestamp e ≡ ok t)
    split_on (ok t) q = (t, q)
    split_on (err x) q = ground arith

check_ext-known : (n : Bytes) → check_ext n ≡ ok tt → (e : Bytes) × (source_ext n ≡ some e)
unfolding check_ext
check_ext-known n h = split_on (source_ext n) refl
  where
    split_on : (o : Option Bytes) → source_ext n ≡ o → (e : Bytes) × (source_ext n ≡ some e)
    split_on (some e) q = (e, q)
    split_on none q = ground arith

check_url-parts :
    (u : Bytes) → check_url u ≡ ok tt → IsToken u × ((e : Bytes) × (source_ext u ≡ some e))
unfolding check_url
check_url-parts u h =
    (IsToken-of token_re u token_re-Graphic (ground arith), check_ext-known u (ground arith))

check_location-ext :
    (s : Spec) → check_location s ≡ ok tt → (e : Bytes) × (source_ext (source_name s) ≡ some e)
unfolding check_location
check_location-ext s h = by_mode (is_empty s.source_local_name) h
  where
    by_mode :
        (b : Bool)
        → (if b then check_url s.source_url else check_ext s.source_local_name) ≡ ok tt
        → (e : Bytes) × (source_ext (if b then s.source_url else s.source_local_name) ≡ some e)
    by_mode true q = (check_url-parts s.source_url q).1
    by_mode false q = check_ext-known s.source_local_name q

check_location-url :
    (s : Spec)
    → check_location s ≡ ok tt
    → is_empty s.source_local_name ≡ true
    → IsToken s.source_url
unfolding check_location
check_location-url s h m = (check_url-parts s.source_url (rw m at h)).0

pub validate_source-parts :
    (s : Spec)
    → validate_source s ≡ ok tt
    → (matches epoch_re s.source_date_epoch ≡ true)
      × (check_epoch s.source_date_epoch ≡ ok tt)
      × (check_location s ≡ ok tt)
      × ((is_empty s.source_sha256 || matches sha256_re s.source_sha256) ≡ true)
unfolding validate_source
validate_source-parts s h =
    let (epoch, h₁) = >>-eq-ok (reject (not (matches epoch_re s.source_date_epoch)) _) _ h in
    let (date, h₂) = >>-eq-ok (check_epoch s.source_date_epoch) _ h₁ in
    let (location, sha) = >>-eq-ok (check_location s) _ h₂ in
    (
      not_rejected _ _ epoch,
      date,
      location,
      unless_rejected (is_empty s.source_sha256) (matches sha256_re s.source_sha256) _ sha,
    )

pub validate_source-SourceSafe : (s : Spec) → validate_source s ≡ ok tt → SourceSafe s
validate_source-SourceSafe s h =
    let (epoch, date, location, sha) = validate_source-parts s h in
    record {
      epoch_token = IsToken-of epoch_re s.source_date_epoch epoch_re-Graphic epoch;
      epoch_renders = check_epoch-renders s.source_date_epoch date;
      url_token = check_location-url s location;
      ext_known = check_location-ext s location;
      sha_token = optional-IsToken sha256_re s.source_sha256 sha256_re-Graphic sha;
    }
