-- ===== src/Step/Build/Gated.antt =====
-- Nothing leaves the runner but from a tree that is ready for this build.
use kernelbuild_buildkit.Common.{
  true, ◌≡◌, ◌∙◌, refl, sym, ap, Option, some, Bytes, [], codes, beq, Result, ok, err,
}
use kernelbuild_buildkit.Seed.{SeedConfig, load_seed_cfg, check_seed_push}
use kernelbuild_buildkit.Step.Build.{
  Setting, run, contract, make_ready, export_plan, expectation_gate, bundle_kconfigs,
  require_modules, compile, copy_artifacts, copy_file, pack_modules, publish, when, epoch_result,
  targets_result, push_result, out_config, compile_args, install_args,
}
use kernelbuild_buildkit.Step.Build.Log.{
  exports, AllFrom, IsQuiet, Goes, IsQuiet->>=, give-IsQuiet, Goes-after_known, Goes-after_quiet,
  Goes->>=, lift-IsQuiet, EndsEarly, EndsEarly-first, EndsEarly-second,
}
use kernelbuild_buildkit.Step.Build.Delivers.{contract-resolves}
use kernelbuild_buildkit.Step.Configure.{config_name, configure}
use kernelbuild_buildkit.Step.Configure.Untouched.{Anywhere}
use kernelbuild_buildkit.Step.Mount.{Mount}
use kernelbuild_buildkit.Step.Report.{RunError, R, ◌>>=◌, ◌>>◌, proceed, give, lift}
use kernelbuild_buildkit.Step.Rules.{Ends}
use kernelbuild_buildkit.Step.Run.{Outcome, done, failed, remove}
use kernelbuild_buildkit.Step.Sweep.{is_stale_seed, sweep_seeds}
use kernelbuild_buildkit.Step.Tree.{prepare_tree}
use kernelbuild_buildkit.Step.Tree.Stale.{IsHonest}
use kernelbuild_buildkit.Targets.{Plan, resolve_targets}
use kernelbuild_buildkit.Spec.Timestamp.{timestamp}
use kernelbuild_buildkit.Step.Build.Parts.{
  modules_of, config_of, artifacts_of, compiled_of, checked_of, exports_of,
}
use kernelbuild_buildkit.Step.Build.Ready.{
  IsReady, IsStamped, IsMarkedFor, IsCareful, prepare_tree-stamped, configure-Ends, gate-IsQuiet,
}
use kernelbuild_buildkit.Step.Build.Good.{
  delete-IsReady, Good, when-Good, bundle_kconfigs-Good, require_modules-Good, compile-Good,
  SameConfig, copy_file-Good, copy_artifacts-Good, pack_modules-Good, lift-Good, publish-Good,
}

abbrev abort_with : RunError → Result RunError (Unit {0})
abort_with e = err e

-- What `run` does before it exports anything, to the gate.
abbrev pub before_export : Setting → R (Unit {0})
before_export b = contract b >>= λ _. make_ready b (load_seed_cfg b.secrets)

-- make leaves .config alone where the runner compiles the plan of TARGETS and where it stages the modules.
pub record LeavesConfig (b : Setting) : Type 0 where
  pub compiling :
      (q : Plan)
      → resolve_targets b.world.env.karch b.targets ≡ ok q
      → SameConfig b (compile_args b q.make_targets)
  pub installing : (dir : Bytes) → b.stage ≡ some dir → SameConfig b (install_args b dir)

module _ (b : Setting) (tmp : is_stale_seed b.seed_tmp ≡ true) (careful : IsCareful b.world)
    (leaves : LeavesConfig b) where
  config_of-Good :
      (q : Plan) (seed : Option SeedConfig) (n : Mount)
      → IsReady b n
      → Good b (config_of b q seed n)
  config_of-Good q seed n h =
      Goes->>= (IsReady b) (when b q.want_config (copy_file b config_name out_config))
        (λ _. modules_of b q seed) n
        (when-Good b q.want_config (copy_file b config_name out_config) n h
          (copy_file-Good b config_name out_config))
        (λ _ n h.
          Goes->>= (IsReady b) (when b q.want_modules (pack_modules b)) (λ _. publish b seed) n
            (when-Good b q.want_modules (pack_modules b) n h
              (λ n h. pack_modules-Good b careful n leaves.installing h))
            (λ _ n h. publish-Good b tmp seed n h))

  exports_of-Good :
      (q : Plan) (seed : Option SeedConfig) (n : Mount)
      → resolve_targets b.world.env.karch b.targets ≡ ok q
      → IsReady b n
      → Good b (exports_of b q seed n)
  exports_of-Good q seed n r h =
      Goes->>= (IsReady b) (when b q.want_kconfigs (bundle_kconfigs b)) (λ _. checked_of b q seed) n
        (when-Good b q.want_kconfigs (bundle_kconfigs b) n h (bundle_kconfigs-Good b))
        (λ _ n h.
          Goes->>= (IsReady b) (when b q.want_modules (require_modules b))
            (λ _. compiled_of b q seed) n
            (when-Good b q.want_modules (require_modules b) n h (require_modules-Good b))
            (λ _ n h.
              Goes->>= (IsReady b) (compile b q.make_targets) (λ _. artifacts_of b q seed) n
                (compile-Good b careful q.make_targets n (leaves.compiling q r) h)
                (λ _ n h.
                  Goes->>= (IsReady b) (copy_artifacts b q.artifacts) (λ _. config_of b q seed) n
                    (copy_artifacts-Good b q.artifacts n h) (λ _ n h. config_of-Good q seed n h))))

  export_plan-Good :
      (q : Plan) (seed : Option SeedConfig) (n : Mount)
      → resolve_targets b.world.env.karch b.targets ≡ ok q
      → IsReady b n
      → Good b (export_plan b q seed n)
  unfolding export_plan beq
  export_plan-Good q seed n r h =
      Goes-after_quiet (IsReady b) (lift (remove (codes ".version"))) (λ _. exports_of b q seed) n
        (IsReady b)
        (lift-Good b (remove (codes ".version")) n (delete-IsReady b (codes ".version") n refl h))
        (λ _ n h. exports_of-Good q seed n r h)

contract-IsQuiet : (b : Setting) (m : Mount) → IsQuiet Anywhere (contract b m)
unfolding contract
contract-IsQuiet b m =
    IsQuiet->>= Anywhere Anywhere (give (epoch_result (timestamp b.epoch))) _ m
      (give-IsQuiet Anywhere (epoch_result (timestamp b.epoch)) m tt)
      (λ _ n _.
        IsQuiet->>= Anywhere Anywhere
          (give (targets_result (resolve_targets b.world.env.karch b.targets))) _ n
          (give-IsQuiet Anywhere (targets_result (resolve_targets b.world.env.karch b.targets)) n
            tt)
          (λ q n _.
            IsQuiet->>= Anywhere Anywhere
              (give (push_result (check_seed_push b.seed_push (load_seed_cfg b.secrets))))
              (λ _. give (ok q)) n
              (give-IsQuiet Anywhere
                (push_result (check_seed_push b.seed_push (load_seed_cfg b.secrets))) n tt)
              (λ _ n _. give-IsQuiet Anywhere (ok q) n tt)))

Ends-Anywhere : {A : Type 0} (o : Outcome A) (m : Mount) → Ends (λ _ n. Anywhere n) o m
Ends-Anywhere (done a) m = tt
Ends-Anywhere (failed e) m = tt

make_ready-IsQuiet :
    (b : Setting) (seed : Option SeedConfig) (m : Mount)
    → IsHonest b.world
    → IsCareful b.world
    → IsQuiet (IsReady b) (make_ready b seed m)
unfolding make_ready
make_ready-IsQuiet b seed m honest careful =
    IsQuiet->>= Anywhere (IsReady b) (lift sweep_seeds) _ m
      (lift-IsQuiet Anywhere sweep_seeds m
        (Ends-Anywhere (sweep_seeds m).outcome (sweep_seeds m).mount))
      (λ _ n _.
        IsQuiet->>= (IsStamped b.world) (IsReady b) (lift (prepare_tree b.world seed)) _ n
          (lift-IsQuiet (IsStamped b.world) (prepare_tree b.world seed) n
            (prepare_tree-stamped b.world seed n honest))
          (λ _ n h.
            IsQuiet->>= (λ n. IsStamped b.world n × IsMarkedFor b.world n) (IsReady b)
              (lift (configure b.world)) (λ _. expectation_gate b) n
              (lift-IsQuiet (λ n. IsStamped b.world n × IsMarkedFor b.world n) (configure b.world) n
                (configure-Ends b.world n careful h))
              (λ _ n h. gate-IsQuiet b n h)))

-- Whatever the runner compiles, writes to /out or pushes, it does on a mount that is ready: the mount
-- has the stamp of this build's inputs, its marker names this build's configuration, and its .config
-- meets the expectations. And a run that fails before it exports, or at the gate, ends with that error
-- and has exported nothing. The archives are honest; make leaves the stamp and the marker alone, and .config as
-- well where it compiles or stages the modules; and the temporary pack of a seed has the name that the
-- sweep looks for.
pub run-IsReady :
    (b : Setting) (m : Mount)
    → IsHonest b.world
    → IsCareful b.world
    → LeavesConfig b
    → is_stale_seed b.seed_tmp ≡ true
    → AllFrom (IsReady b) (exports (run b m).events)
      × ((e : RunError)
          → (before_export b m).outcome ≡ err e
          → ((run b m).outcome ≡ err e) × (exports (run b m).events ≡ []))
unfolding run
run-IsReady b m honest careful leaves tmp =
    (guarded.all, λ e h. by_contract e (contract b m).outcome refl h)
  where
    seed : Option SeedConfig
    seed = load_seed_cfg b.secrets

    rest : Plan → R (Unit {0})
    rest q = make_ready b seed >> export_plan b q seed

    guarded : Goes (IsReady b) ((contract b >>= rest) m)
    guarded =
        Goes-after_known (IsReady b) (contract b) rest m Anywhere (contract-IsQuiet b m)
          (λ q ok_q _.
            Goes-after_quiet (IsReady b) (make_ready b seed) (λ _. export_plan b q seed)
              (contract b m).mount (IsReady b)
              (make_ready-IsQuiet b seed (contract b m).mount honest careful)
              (λ _ n h.
                export_plan-Good b tmp careful leaves q seed n (contract-resolves b m q ok_q) h))

    by_contract :
        (e : RunError) (o : Result RunError Plan)
        → (contract b m).outcome ≡ o
        → (before_export b m).outcome ≡ err e
        → EndsEarly e ((contract b >>= rest) m)
    by_contract e (err x) c h =
        let early : (before_export b m).outcome ≡ err x =
          ap
            (λ o.
              (proceed o (contract b m).mount (contract b m).events
                (λ _. make_ready b seed)).outcome)
            c in
        let both : abort_with x ≡ abort_with e = sym early ∙ h in
        let same : x ≡ e = cc in
        EndsEarly-first (contract b) rest m e Anywhere (contract-IsQuiet b m) (c ∙ ap err same)
    by_contract e (ok q) c h =
        let n = (contract b m).mount in
        let late : (before_export b m).outcome ≡ (make_ready b seed n).outcome =
          ap (λ o. (proceed o n (contract b m).events (λ _. make_ready b seed)).outcome) c in
        EndsEarly-second (contract b) rest m e Anywhere (contract-IsQuiet b m) q c (
          EndsEarly-first (make_ready b seed) (λ _. export_plan b q seed) n e (IsReady b)
            (make_ready-IsQuiet b seed n honest careful) (sym late ∙ h))
