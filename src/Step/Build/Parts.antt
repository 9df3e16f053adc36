-- ===== src/Step/Build/Parts.antt =====
-- `run` behind the gate, cut between its phases.
use kernelbuild_buildkit.Common.{Option}
use kernelbuild_buildkit.Seed.{SeedConfig}
use kernelbuild_buildkit.Step.Build.{
  Setting, bundle_kconfigs, require_modules, compile, copy_artifacts, copy_file, pack_modules,
  publish, when, out_config,
}
use kernelbuild_buildkit.Step.Configure.{config_name}
use kernelbuild_buildkit.Step.Report.{R, ◌>>◌}
use kernelbuild_buildkit.Targets.{Plan}

module _ (b : Setting) where
  -- The parts of `export_plan`, from the last one.
  abbrev pub modules_of : Plan → Option SeedConfig → R (Unit {0})
  modules_of q seed = when b q.want_modules (pack_modules b) >> publish b seed

  abbrev pub config_of : Plan → Option SeedConfig → R (Unit {0})
  config_of q seed = when b q.want_config (copy_file b config_name out_config) >> modules_of q seed

  abbrev pub artifacts_of : Plan → Option SeedConfig → R (Unit {0})
  artifacts_of q seed = copy_artifacts b q.artifacts >> config_of q seed

  abbrev pub compiled_of : Plan → Option SeedConfig → R (Unit {0})
  compiled_of q seed = compile b q.make_targets >> artifacts_of q seed

  abbrev pub checked_of : Plan → Option SeedConfig → R (Unit {0})
  checked_of q seed = when b q.want_modules (require_modules b) >> compiled_of q seed

  abbrev pub exports_of : Plan → Option SeedConfig → R (Unit {0})
  exports_of q seed = when b q.want_kconfigs (bundle_kconfigs b) >> checked_of q seed
