-- ===== src/Tests/Build.antt =====
-- `run` at concrete settings.
use kernelbuild_buildkit.Common.{◌≡◌, refl, ok, err, true, none, some, codes, [], ◌∷◌, ◌++◌, beq}
use kernelbuild_buildkit.Seed.{load_seed_cfg}
use kernelbuild_buildkit.Spec.Timestamp.{out_of_range, timestamp}
use kernelbuild_buildkit.Step.Build.{Setting, run}
use kernelbuild_buildkit.Step.Build.Contract.{refusal, first_breach, run-refusal}
use kernelbuild_buildkit.Step.Build.Delivers.{Delivered, run-Delivered}
use kernelbuild_buildkit.Step.Build.Gated.{LeavesConfig, before_export, run-IsReady}
use kernelbuild_buildkit.Step.Build.Log.{exports, AllFrom}
use kernelbuild_buildkit.Step.Build.Ready.{IsReady, IsCareful}
use kernelbuild_buildkit.Step.Mount.{Mount, delete}
use kernelbuild_buildkit.Step.Report.{RunError, bad_epoch}
use kernelbuild_buildkit.Step.Sweep.{is_stale_seed}
use kernelbuild_buildkit.Step.Tree.Stale.{IsHonest}
use kernelbuild_buildkit.Step.World.{Env, World, whole, no_such_key}
use kernelbuild_buildkit.Targets.{Plan, resolve_targets, set_artifact}

abbrev env : Env
env = record {
  src_id = codes "aa";
  src_url = codes "https://example.com/linux.tar.gz";
  src_sha256 = codes "aa";
  src_local = [];
  apply_patches = codes "0";
  base_make = [];
  karch = codes "x86_64";
  cross_compile = [];
}

abbrev world : World
world = record {
  env = env;
  src_file = λ name. none;
  kernel_config = some (codes "CONFIG_NET=y\n");
  patch_series = none;
  sha256_hex = λ body. codes "aa";
  download = λ url. whole (codes "tarball");
  unpack = λ name body. record { entries = (codes "Makefile", codes "all:") ∷ []; complete = true };
  patched = λ m. record { entries = []; complete = true };
  pull_seed = no_such_key;
  make = λ args m. record { between = []; left = m; success = true };
}

abbrev setting : Setting
setting = record {
  world = world;
  epoch = codes "1700000000";
  targets = codes "vmlinux,config";
  seed_push = [];
  secrets = record { seed_cfg_file = none; access_key = none; secret_key = none };
  expect = some (codes "y CONFIG_NET\n");
  jobs = codes "2";
  below = λ m path. none;
  writable = λ path. true;
  bundles = λ m. true;
  stage = none;
  packs = λ m. true;
  s3_client = true;
  seed_tmp = codes ".kbf-seed-1.tmp";
  seed_pack = λ m. none;
  uploads = λ pack. true;
}

abbrev warm_mount : Mount
warm_mount =
    (codes ".config", codes "CONFIG_NET=y\n")
    ∷ (codes ".kbf-config-src", codes "base-make=" ++ (0 ∷ codes "CONFIG_NET=y\n"))
    ∷ (codes ".kbf-stamp", codes "src=aa patches=none")
    ∷ (codes "Makefile", codes "all:")
    ∷ (codes "vmlinux", codes "elf")
    ∷ []

world-IsHonest : IsHonest world
unfolding beq
world-IsHonest = record { unpacked = λ name body. refl; patched = λ m. refl; seed = λ u e c. cc }

world-IsCareful : IsCareful world
world-IsCareful = record {
  no_marker = λ args m u. (tt, u);
  same_marker = λ args m. refl;
  no_stamp = λ args m. refl;
}

setting-LeavesConfig : LeavesConfig setting
setting-LeavesConfig = record { compiling = λ q r n. refl; installing = λ dir e. cc }

tmp_name : is_stale_seed setting.seed_tmp ≡ true
unfolding is_stale_seed
tmp_name = refl

run-IsReady_example :
    AllFrom (IsReady setting) (exports (run setting warm_mount).events)
    × ((e : RunError)
        → (before_export setting warm_mount).outcome ≡ err e
        → ((run setting warm_mount).outcome ≡ err e)
          × (exports (run setting warm_mount).events ≡ []))
run-IsReady_example =
    run-IsReady setting warm_mount world-IsHonest world-IsCareful setting-LeavesConfig tmp_name

run_ok : (run setting warm_mount).outcome ≡ ok tt
unfolding run set_artifact delete
run_ok = refl

run-Delivered_example :
    (q : Plan) × (resolve_targets (codes "x86_64") (codes "vmlinux,config") ≡ ok q)
    × Delivered setting q (load_seed_cfg setting.secrets) (exports (run setting warm_mount).events)
run-Delivered_example = run-Delivered setting warm_mount run_ok

abbrev late_setting : Setting
late_setting = record setting { epoch = codes "253402300800" }

late_breach : first_breach late_setting ≡ some (bad_epoch out_of_range)
unfolding timestamp
late_breach = refl

run-refusal_example : run late_setting warm_mount ≡ refusal (bad_epoch out_of_range) warm_mount
run-refusal_example = run-refusal late_setting warm_mount (bad_epoch out_of_range) late_breach
