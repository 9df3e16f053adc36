-- ===== src/Spec/Accepted/Names.antt =====
-- Of `Validate`: the version and the file names.
use kernelbuild_buildkit.Common.{true, not, ◌||◌, ◌≡◌, arith, is_empty, every, fields, ok}
use kernelbuild_buildkit.Spec.{Spec}
use kernelbuild_buildkit.Spec.Patterns.{version_re}
use kernelbuild_buildkit.Spec.Safety.{
  IsToken, IsToken-of, optional_file, optional_file_dots, is_plain_target, check_base_make-every,
  version_re-Graphic,
}
use kernelbuild_buildkit.Spec.Validate.{is_file, has_dots, validate_names}

-- The file names and the version.
pub record NamesSafe (s : Spec) : Type 0 where
  pub version_token : IsToken s.kernel_version
  pub config_file : is_file s.config_name ≡ true
  pub expect_token : IsToken s.expect_name
  pub expect_file : (is_empty s.expect_name || is_file s.expect_name) ≡ true
  pub local_token : IsToken s.source_local_name
  pub local_file : (is_empty s.source_local_name || is_file s.source_local_name) ≡ true
  pub local_dots : (is_empty s.source_local_name || not (has_dots s.source_local_name)) ≡ true
  pub base_make_targets : every is_plain_target (fields s.base_make) ≡ true

pub validate_names-NamesSafe : (s : Spec) → validate_names s ≡ ok tt → NamesSafe s
unfolding validate_names
validate_names-NamesSafe s h = record {
  version_token = IsToken-of version_re s.kernel_version version_re-Graphic (ground arith);
  config_file = ground arith;
  expect_token = optional_file s.expect_name (ground arith);
  local_token = optional_file s.source_local_name (ground arith);
  expect_file = ground arith;
  local_file = ground arith;
  local_dots = optional_file_dots s.source_local_name (ground arith);
  base_make_targets = check_base_make-every (fields s.base_make) (ground arith);
}
