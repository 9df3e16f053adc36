-- ===== src/Step/Build/Contract.antt =====
-- The errors of the contract come before anything is touched.
use kernelbuild_buildkit.Common.{◌≡◌, ap, Option, none, some, Bytes, [], Result, ok, err}
use kernelbuild_buildkit.Seed.{load_seed_cfg, PushError, check_seed_push}
use kernelbuild_buildkit.Spec.Timestamp.{EpochError, timestamp}
use kernelbuild_buildkit.Step.Build.{
  Setting, contract, run, epoch_result, targets_result, push_result, make_ready, export_plan,
}
use kernelbuild_buildkit.Step.Mount.{Mount}
use kernelbuild_buildkit.Step.Report.{
  RunError, bad_epoch, bad_targets, bad_push, Report, proceed, ◌>>=◌, ◌>>◌, give,
}
use kernelbuild_buildkit.Targets.{Plan, TargetError, resolve_targets}

-- A run that ends with an error, the mount as it was and nothing done.
abbrev pub refusal : {A : Type 0} → RunError → Mount → Report A
refusal e m = record { outcome = err e; mount = m; events = [] }

-- The error of the first part of the contract that is broken.
abbrev pub push_error : Option PushError → Option RunError
push_error none = none
push_error (some x) = some (bad_push x)

abbrev pub targets_error : Result TargetError Plan → Option RunError → Option RunError
targets_error (err x) later = some (bad_targets x)
targets_error (ok q) later = later

abbrev pub epoch_error : Result EpochError Bytes → Option RunError → Option RunError
epoch_error (err x) later = some (bad_epoch x)
epoch_error (ok ts) later = later

abbrev pub first_breach : Setting → Option RunError
first_breach b = epoch_error (timestamp b.epoch) (
    targets_error (resolve_targets b.world.env.karch b.targets)
      (push_error (check_seed_push b.seed_push (load_seed_cfg b.secrets))))

contract-refusal :
    (b : Setting) (m : Mount) (e : RunError) → first_breach b ≡ some e → contract b m ≡ refusal e m
unfolding contract
contract-refusal b m e h =
    by_parts (timestamp b.epoch) (resolve_targets b.world.env.karch b.targets)
      (check_seed_push b.seed_push (load_seed_cfg b.secrets)) h
  where
    by_parts :
        (t : Result EpochError Bytes) (r : Result TargetError Plan) (p : Option PushError)
        → epoch_error t (targets_error r (push_error p)) ≡ some e
        → (give (epoch_result t) >>= λ ts.
              give (targets_result r) >>= λ q. give (push_result p) >>= λ _. give (ok q))
            m
          ≡ refusal e m
    by_parts (err x) r p h = ap (λ y. refusal y m) (cc)
    by_parts (ok ts) (err x) p h = ap (λ y. refusal y m) (cc)
    by_parts (ok ts) (ok q) (some x) h = ap (λ y. refusal y m) (cc)
    by_parts (ok ts) (ok q) none h = cc

-- A run whose epoch does not render, whose TARGETS are not known, or that is to push a seed and cannot,
-- ends with the error of the first of these, and has touched nothing: the mount is as it was, no
-- change of it was made on the way, and nothing was compiled, written or pushed.
pub run-refusal :
    (b : Setting) (m : Mount) (e : RunError) → first_breach b ≡ some e → run b m ≡ refusal e m
unfolding run
run-refusal b m e h =
    ap
      (λ r.
        proceed r.outcome r.mount r.events (λ q.
          make_ready b (load_seed_cfg b.secrets) >> export_plan b q (load_seed_cfg b.secrets)))
      (contract-refusal b m e h)
