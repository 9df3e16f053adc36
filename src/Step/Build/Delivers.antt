-- ===== src/Step/Build/Delivers.antt =====
-- A run that succeeds has delivered all that was asked for.
use kernelbuild_buildkit.Common.{
  ◌≡◌, Option, none, some, Bytes, List, ◌∷◌, Result, ok, err, true, false, codes,
}
use kernelbuild_buildkit.Seed.{SeedConfig, load_seed_cfg, PushError, check_seed_push}
use kernelbuild_buildkit.Spec.Timestamp.{EpochError, timestamp}
use kernelbuild_buildkit.Step.Build.{
  Setting, run, contract, make_ready, export_plan, bundle_kconfigs, require_modules, compile,
  compile_args, copy_artifacts, copy_file, pack_modules, publish, when, out_config, out_kconfigs,
  epoch_result, targets_result, push_result,
}
use kernelbuild_buildkit.Step.Build.Log.{exports}
use kernelbuild_buildkit.Step.Build.Parts.{
  modules_of, config_of, artifacts_of, compiled_of, checked_of, exports_of,
}
use kernelbuild_buildkit.Step.Configure.{config_name}
use kernelbuild_buildkit.Step.Mount.{Mount, delete}
use kernelbuild_buildkit.Step.Report.{Export, compiled, wrote, R, ◌>>=◌, ◌>>◌, give}
use kernelbuild_buildkit.Targets.{Plan, TargetError, resolve_targets}
use kernelbuild_buildkit.Step.Build.Has.{Has, Within, both_ok, first-Within, second-Within}
use kernelbuild_buildkit.Step.Build.Phases.{
  copy_file-Has, AllWrote, AllWrote-mono, copy_artifacts-AllWrote, pack_modules-Has, when-Has,
  publish-Has, compile-Has, bundle_kconfigs-Has, Makes, Copied, Bundled, HasModules,
  HasModules-mono, HasSeed,
}

module _ (b : Setting) where
  -- What a plan asks for is done, and on the log: the catalog of symbols is bundled, make has succeeded
  -- for the targets, each artifact and the configuration are copied, the modules are staged and packed,
  -- and the seed is uploaded.
  pub record Delivered (q : Plan) (seed : Option SeedConfig) (log : List (Mount × Export))
      : Type 0 where
    pub kconfigs : q.want_kconfigs ≡ true → Has (Bundled b) (wrote out_kconfigs) log
    pub compiles :
        (t : Bytes) (ts : List Bytes)
        → q.make_targets ≡ t ∷ ts
        → Has (Makes b (compile_args b (t ∷ ts))) (compiled (compile_args b (t ∷ ts))) log
    pub artifacts : AllWrote b q.artifacts log
    pub config : q.want_config ≡ true → Has (Copied b config_name out_config) (wrote out_config) log
    pub modules : q.want_modules ≡ true → HasModules b log
    pub seeds : (c : SeedConfig) → seed ≡ some c → c.push ≡ true → HasSeed b c log

  module _ (q : Plan) (seed : Option SeedConfig) where
    -- What the parts from the modules on deliver.
    record Later (log : List (Mount × Export)) : Type 0 where
      config : q.want_config ≡ true → Has (Copied b config_name out_config) (wrote out_config) log
      modules : q.want_modules ≡ true → HasModules b log
      seeds : (c : SeedConfig) → seed ≡ some c → c.push ≡ true → HasSeed b c log

    HasSeed-mono :
        (c : SeedConfig) (u v : List (Mount × Export)) → Within u v → HasSeed b c u → HasSeed b c v
    HasSeed-mono c u v f (client, h) = (client, f _ _ h)

    config_of-Later :
        (m : Mount)
        → (config_of b q seed m).outcome ≡ ok tt
        → Later (exports (config_of b q seed m).events)
    config_of-Later m h =
        let p = when b q.want_config (copy_file b config_name out_config) in
        let p' = when b q.want_modules (pack_modules b) in
        let o = both_ok p (λ _. modules_of b q seed) m tt h in
        let n = (p m).mount in
        let o' = both_ok p' (λ _. publish b seed) n tt o.second in
        let later = second-Within p (λ _. modules_of b q seed) m tt o in
        record {
          config = λ e.
              first-Within p (λ _. modules_of b q seed) m tt o _ _
                (when-Has b q.want_config (copy_file b config_name out_config) m
                  (Has (Copied b config_name out_config) (wrote out_config))
                  (copy_file-Has b config_name out_config m) o.first e);
          modules = λ e. HasModules-mono b _ _ later (
              HasModules-mono b _ _ (first-Within p' (λ _. publish b seed) n tt o') (
                when-Has b q.want_modules (pack_modules b) n (HasModules b) (pack_modules-Has b n)
                  o'.first e));
          seeds = λ c e g. HasSeed-mono c _ _ later (
              HasSeed-mono c _ _ (second-Within p' (λ _. publish b seed) n tt o')
                (publish-Has b seed (p' n).mount c o'.second e g));
        }

    compiled_of-Later :
        (m : Mount)
        → (compiled_of b q seed m).outcome ≡ ok tt
        → Delivered
            (record q { want_kconfigs = false })
            seed
            (exports (compiled_of b q seed m).events)
    compiled_of-Later m h =
        let p = compile b q.make_targets in
        let p' = copy_artifacts b q.artifacts in
        let o = both_ok p (λ _. artifacts_of b q seed) m tt h in
        let n = (p m).mount in
        let o' = both_ok p' (λ _. config_of b q seed) n tt o.second in
        let l = config_of-Later (p' n).mount o'.second in
        let later = second-Within p (λ _. artifacts_of b q seed) m tt o in
        let latest = second-Within p' (λ _. config_of b q seed) n tt o' in
        record {
          kconfigs = λ e. cc;
          compiles = λ t ts e.
              first-Within p (λ _. artifacts_of b q seed) m tt o _ _
                (compile-Has b q.make_targets m t ts o.first e);
          artifacts = AllWrote-mono b q.artifacts _ _ later (
              AllWrote-mono b q.artifacts _ _ (first-Within p' (λ _. config_of b q seed) n tt o')
                (copy_artifacts-AllWrote b q.artifacts n o'.first));
          config = λ e. later _ _ (latest _ _ (l.config e));
          modules = λ e. HasModules-mono b _ _ later (HasModules-mono b _ _ latest (l.modules e));
          seeds = λ c e g. HasSeed-mono c _ _ later (HasSeed-mono c _ _ latest (l.seeds c e g));
        }

    Delivered-mono :
        (u v : List (Mount × Export))
        → Within u v
        → (q.want_kconfigs ≡ true → Has (Bundled b) (wrote out_kconfigs) v)
        → Delivered (record q { want_kconfigs = false }) seed u
        → Delivered q seed v
    Delivered-mono u v f k d = record {
      kconfigs = k;
      compiles = λ t ts e. f _ _ (d.compiles t ts e);
      artifacts = AllWrote-mono b q.artifacts u v f d.artifacts;
      config = λ e. f _ _ (d.config e);
      modules = λ e. HasModules-mono b u v f (d.modules e);
      seeds = λ c e g. HasSeed-mono c u v f (d.seeds c e g);
    }

    exports_of-Delivered :
        (m : Mount)
        → (exports_of b q seed m).outcome ≡ ok tt
        → Delivered q seed (exports (exports_of b q seed m).events)
    exports_of-Delivered m h =
        let p = when b q.want_kconfigs (bundle_kconfigs b) in
        let p' = when b q.want_modules (require_modules b) in
        let o = both_ok p (λ _. checked_of b q seed) m tt h in
        let n = (p m).mount in
        let o' = both_ok p' (λ _. compiled_of b q seed) n tt o.second in
        Delivered-mono _ _
          (λ P x g.
            second-Within p (λ _. checked_of b q seed) m tt o P x
              (second-Within p' (λ _. compiled_of b q seed) n tt o' P x g))
          (λ e.
            first-Within p (λ _. checked_of b q seed) m tt o _ _
              (when-Has b q.want_kconfigs (bundle_kconfigs b) m
                (Has (Bundled b) (wrote out_kconfigs)) (bundle_kconfigs-Has b m) o.first e))
          (compiled_of-Later (p' n).mount o'.second)

    export_plan-Delivered :
        (m : Mount)
        → (export_plan b q seed m).outcome ≡ ok tt
        → Delivered q seed (exports (export_plan b q seed m).events)
    unfolding export_plan
    export_plan-Delivered m h = exports_of-Delivered (delete (codes ".version") m) h

    Delivered-up :
        (u v : List (Mount × Export)) → Within u v → Delivered q seed u → Delivered q seed v
    Delivered-up u v f d = record {
      kconfigs = λ e. f _ _ (d.kconfigs e);
      compiles = λ t ts e. f _ _ (d.compiles t ts e);
      artifacts = AllWrote-mono b q.artifacts u v f d.artifacts;
      config = λ e. f _ _ (d.config e);
      modules = λ e. HasModules-mono b u v f (d.modules e);
      seeds = λ c e g. HasSeed-mono c u v f (d.seeds c e g);
    }

  pub contract-resolves :
      (m : Mount) (q : Plan)
      → (contract b m).outcome ≡ ok q
      → resolve_targets b.world.env.karch b.targets ≡ ok q
  unfolding contract
  contract-resolves m q h =
      by_parts (timestamp b.epoch) (resolve_targets b.world.env.karch b.targets)
        (check_seed_push b.seed_push (load_seed_cfg b.secrets)) h
    where
      by_parts :
          (t : Result EpochError Bytes) (r : Result TargetError Plan) (p : Option PushError)
          → ((give (epoch_result t) >>= λ ts.
                give (targets_result r) >>= λ q. give (push_result p) >>= λ _. give (ok q))
              m).outcome
            ≡ ok q
          → r ≡ ok q
      by_parts (err x) r p h = cc
      by_parts (ok ts) (err x) p h = cc
      by_parts (ok ts) (ok q') (some x) h = cc
      by_parts (ok ts) (ok q') none h = cc

-- A run that succeeds has delivered what TARGETS and the seed's configuration ask for: TARGETS has a plan,
-- and all that the plan asks for has succeeded, each from a mount that the log gives: the bundle of the
-- symbols came to its end, make succeeded for the targets, each artifact and the configuration were
-- there and were written to the end, make staged the modules and their pack came to its end, and where
-- the seed is to be pushed, the upload of its pack did.
pub run-Delivered :
    (b : Setting) (m : Mount)
    → (run b m).outcome ≡ ok tt
    → (q : Plan) × (resolve_targets b.world.env.karch b.targets ≡ ok q)
      × Delivered b q (load_seed_cfg b.secrets) (exports (run b m).events)
unfolding run
run-Delivered b m h =
    let seed = load_seed_cfg b.secrets in
    let f : Plan → R (Unit {0}) = λ q. (make_ready b seed >> export_plan b q seed) in
    let o = both_ok (contract b) f m tt h in
    let q = o.value in
    let n = (contract b m).mount in
    let o' = both_ok (make_ready b seed) (λ _. export_plan b q seed) n tt o.second in
    (
      q,
      contract-resolves b m q o.first,
      Delivered-up b q seed _ _
          (λ P x g.
            second-Within (contract b) f m tt o P x
              (second-Within (make_ready b seed) (λ _. export_plan b q seed) n tt o' P x g))
          (export_plan-Delivered b q seed (make_ready b seed n).mount o'.second),
    )
