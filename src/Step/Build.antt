-- ===== src/Step/Build.antt =====
-- `run` (cmd/kbuild-step/main.go): the phases of the runner in their order.
pub mod Log
pub mod Parts
pub mod Ready
pub mod Good
pub mod Gated
pub mod Has
pub mod Phases
pub mod Delivers
pub mod Contract
use kernelbuild_buildkit.Common.{
  ℕ, ◌/◌, ◌%◌, zero, suc, ◌+◌, ltb, Bool, true, false, not, ◌&&◌, ◌||◌, List, [], ◌∷◌, ◌++◌,
  if◌then◌else◌, Option, none, some, Bytes, codes, beq, is_empty, has_prefix, has_suffix, drop,
  Result, ok, err,
}
use kernelbuild_buildkit.Seed.{SeedConfig, Secrets, load_seed_cfg, PushError, check_seed_push}
use kernelbuild_buildkit.Spec.Timestamp.{EpochError, timestamp}
use kernelbuild_buildkit.Step.Configure.{config_name, run_make, arch_args, configure}
use kernelbuild_buildkit.Step.Expect.{ExpectError, validate_expectations}
use kernelbuild_buildkit.Step.Mount.{Mount, get, delete, names, put}
use kernelbuild_buildkit.Step.Report.{
  RunError, bad_epoch, bad_targets, bad_push, not_expected, kconfigs_failed, modules_disabled,
  copy_failed, pack_failed, push_failed, compiled, wrote, pushed, Report, R, ◌>>=◌, ◌>>◌, give,
  pass, abort, emit, lift,
}
use kernelbuild_buildkit.Step.Run.{write, remove}
use kernelbuild_buildkit.Step.Sweep.{sweep_seeds}
use kernelbuild_buildkit.Step.Tree.{prepare_tree}
use kernelbuild_buildkit.Step.World.{World}
use kernelbuild_buildkit.Targets.{Plan, TargetError, resolve_targets, modules_enabled}

-- What `run` finds besides the world of its phases.
pub record Setting : Type 0 where
  pub world : World
  -- SOURCE_DATE_EPOCH, TARGETS and SEED_PUSH
  pub epoch : Bytes
  pub targets : Bytes
  pub seed_push : Bytes
  pub secrets : Secrets
  -- os.ReadFile of /kernel.expect
  pub expect : Option Bytes
  -- GOMAXPROCS, in decimal
  pub jobs : Bytes
  -- a file of the tree below its top level
  pub below : Mount → Bytes → Option Bytes
  -- whether a file of /out can be written to its end
  pub writable : Bytes → Bool
  -- whether `bundleKconfigs` comes to its end
  pub bundles : Mount → Bool
  -- os.MkdirTemp for the staged modules, and whether the pack of them comes to its end
  pub stage : Option Bytes
  pub packs : Mount → Bool
  -- `seedPush`: the client, the name of the temporary file, the pack of the tree, and the upload
  pub s3_client : Bool
  pub seed_tmp : Bytes
  pub seed_pack : Mount → Option Bytes
  pub uploads : Bytes → Bool

abbrev pub out_config : Bytes
out_config = codes "/out/config"

abbrev pub out_modules : Bytes
out_modules = codes "/out/modules.tar.zst"

abbrev pub out_kconfigs : Bytes
out_kconfigs = codes "/out/kconfig.txt.gz"

abbrev epoch_result : Result EpochError Bytes → Result RunError Bytes
epoch_result (err e) = err (bad_epoch e)
epoch_result (ok ts) = ok ts

abbrev targets_result : Result TargetError Plan → Result RunError Plan
targets_result (err e) = err (bad_targets e)
targets_result (ok q) = ok q

abbrev push_result : Option PushError → Result RunError (Unit {0})
push_result none = ok tt
push_result (some e) = err (bad_push e)

abbrev gate_result : Result ExpectError ℕ → Result RunError (Unit {0})
gate_result (err e) = err (not_expected e)
gate_result (ok n) = ok tt

module _ (b : Setting) where
  open b use {world, secrets}

  abbrev unless_failed : Bool → RunError → R (Unit {0})
  unless_failed true e = pass
  unless_failed false e = abort e

  -- The file of a path in the tree.
  abbrev or_below : Mount → Bytes → Option Bytes → Option Bytes
  or_below m path none = b.below m path
  or_below m path (some text) = some text

  -- `validateExpectations`
  unfoldable pub expectation_gate : R (Unit {0})
  unfolding validate_expectations get
  expectation_gate m = give (gate_result (validate_expectations b.expect (get config_name m))) m

  -- `bundleKconfigs`
  unfoldable pub bundle_kconfigs : R (Unit {0})
  bundle_kconfigs = do emit (wrote out_kconfigs); λ m. unless_failed (b.bundles m) kconfigs_failed m

  abbrev config_enables : Option Bytes → Bool
  config_enables none = false
  config_enables (some text) = modules_enabled text

  -- The refusal of modules that the config does not enable.
  unfoldable pub require_modules : R (Unit {0})
  unfolding modules_enabled get
  require_modules m = unless_failed (config_enables (get config_name m)) modules_disabled m

  -- The arguments of the compiling run of make.
  unfoldable pub compile_args : List Bytes → List Bytes
  unfolding arch_args beq
  compile_args make_targets = arch_args world (
      ((codes "-j" ++ b.jobs) ∷ [])
      ++ ((if is_empty world.env.karch || beq world.env.karch (codes "x86_64")
            then codes "KCFLAGS=-Wa,-mx86-used-note=no" ∷ []
            else [])
          ++ make_targets))

  unfoldable pub make_args : List Bytes → R (Unit {0})
  unfolding run_make
  make_args args = emit (compiled args) >> lift (run_make world args)

  unfoldable pub compile : List Bytes → R (Unit {0})
  unfolding make_args compile_args
  compile [] = pass
  compile (t ∷ ts) = make_args (compile_args (t ∷ ts))

  abbrev copy_text : Bytes → Option Bytes → R (Unit {0})
  copy_text dst none = abort (copy_failed dst)
  copy_text dst (some text) = do emit (wrote dst); unless_failed (b.writable dst) (copy_failed dst)

  -- `copyFile`
  unfoldable pub copy_file : Bytes → Bytes → R (Unit {0})
  unfolding get
  copy_file src dst m = copy_text dst (or_below m src (get src m)) m

  -- The loop over the artifacts, in some order.
  unfoldable pub copy_artifacts : List (Bytes × Bytes) → R (Unit {0})
  unfolding copy_file
  copy_artifacts [] = pass
  copy_artifacts ((src, dst) ∷ rest) = copy_file src dst >> copy_artifacts rest

  -- The arguments of the run of make that stages the modules.
  abbrev pub install_args : Bytes → List Bytes
  install_args dir = arch_args world (
      codes "modules_install"
      ∷ (codes "INSTALL_MOD_PATH=" ++ dir)
      ∷ codes "INSTALL_MOD_STRIP=1"
      ∷ [])

  abbrev pack_staged : Option Bytes → R (Unit {0})
  pack_staged none = abort pack_failed
  pack_staged (some dir) = do
    make_args (install_args dir)
    emit (wrote out_modules)
    λ m. unless_failed (b.packs m) pack_failed m

  -- `packModules`
  unfoldable pub pack_modules : R (Unit {0})
  unfolding make_args arch_args
  pack_modules = pack_staged b.stage

  abbrev upload_pack : SeedConfig → Option Bytes → R (Unit {0})
  upload_pack c none = lift (remove b.seed_tmp) >> abort push_failed
  upload_pack c (some pack) = do
    lift (write b.seed_tmp pack)
    emit (pushed c)
    lift (remove b.seed_tmp)
    unless_failed (b.uploads pack) push_failed

  -- `seedPush`: the temporary file stands on the mount until the push is over.
  unfoldable pub push_seed : SeedConfig → R (Unit {0})
  push_seed c = do
    unless_failed b.s3_client push_failed
    lift (write b.seed_tmp [])
    λ m. upload_pack c (b.seed_pack m) m

  abbrev pub when : Bool → R (Unit {0}) → R (Unit {0})
  when true p = p
  when false p = pass

  unfoldable pub publish : Option SeedConfig → R (Unit {0})
  unfolding push_seed
  publish none = pass
  publish (some c) = when c.push (push_seed c)

  -- `run` behind the gate.
  unfoldable pub export_plan : Plan → Option SeedConfig → R (Unit {0})
  unfolding bundle_kconfigs require_modules compile copy_artifacts copy_file pack_modules publish
  export_plan q seed = do
    lift (remove (codes ".version"))
    when q.want_kconfigs bundle_kconfigs
    when q.want_modules require_modules
    compile q.make_targets
    copy_artifacts q.artifacts
    when q.want_config (copy_file config_name out_config)
    when q.want_modules pack_modules
    publish seed

  unfoldable pub make_ready : Option SeedConfig → R (Unit {0})
  unfolding sweep_seeds prepare_tree configure expectation_gate
  make_ready seed = do
    lift sweep_seeds
    lift (prepare_tree world seed)
    lift (configure world)
    expectation_gate

  -- The errors of the contract, before anything else.
  unfoldable pub contract : R Plan
  unfolding timestamp resolve_targets load_seed_cfg check_seed_push
  contract = do
    ts ← give (epoch_result (timestamp b.epoch))
    q ← give (targets_result (resolve_targets world.env.karch b.targets))
    give (push_result (check_seed_push b.seed_push (load_seed_cfg secrets)))
    give (ok q)

  -- `run`
  unfoldable pub run : R (Unit {0})
  unfolding contract make_ready export_plan load_seed_cfg
  run = do q ← contract; make_ready (load_seed_cfg secrets); export_plan q (load_seed_cfg secrets)
