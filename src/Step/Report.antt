-- ===== src/Step/Report.antt =====
-- How `run` is modelled: a part of it takes the mount and ends with a result, the mount that it leaves,
-- and the log of what it did: the changes of the mount, and each thing that it compiled, wrote to /out
-- or pushed, with the mount that it was made from.
use kernelbuild_buildkit.Common.{List, [], ◌∷◌, ◌++◌, Bytes, Result, ok, err}
use kernelbuild_buildkit.Seed.{SeedConfig, PushError}
use kernelbuild_buildkit.Spec.Timestamp.{EpochError}
use kernelbuild_buildkit.Step.Expect.{ExpectError}
use kernelbuild_buildkit.Step.Mount.{Mount}
use kernelbuild_buildkit.Step.Run.{StepError, Outcome, done, failed, M}
use kernelbuild_buildkit.Targets.{TargetError}

pub data RunError : Type 0 where
  bad_epoch : EpochError → RunError
  bad_targets : TargetError → RunError
  bad_push : PushError → RunError
  step_failed : StepError → RunError
  not_expected : ExpectError → RunError
  kconfigs_failed : RunError
  modules_disabled : RunError
  copy_failed : Bytes → RunError
  pack_failed : RunError
  push_failed : RunError

pub data Export : Type 0 where
  compiled : List Bytes → Export
  wrote : Bytes → Export
  pushed : SeedConfig → Export

pub data Event : Type 0 where
  changed : Mount → Event
  exported : Mount → Export → Event

pub record Report (A : Type 0) : Type 0 where
  pub outcome : Result RunError A
  pub mount : Mount
  pub events : List Event

abbrev pub R : Type 0 → Type 0
R A = Mount → Report A

abbrev pub behind : {B : Type 0} → List Event → Report B → Report B
behind es r = record r { events = es ++ r.events }

abbrev pub proceed : {A B : Type 0} → Result RunError A → Mount → List Event → (A → R B) → Report B
proceed (ok a) m es f = behind es (f a m)
proceed (err e) m es f = record { outcome = err e; mount = m; events = es }

infixl 5 ◌>>=◌ ◌>>◌
abbrev pub ◌>>=◌ : {A B : Type 0} → R A → (A → R B) → R B
◌>>=◌ p f m = let r = p m in proceed r.outcome r.mount r.events f

abbrev pub ◌>>◌ : {B : Type 0} → R (Unit {0}) → R B → R B
p >> q = p >>= λ _. q

abbrev pub give : {A : Type 0} → Result RunError A → R A
give r m = record { outcome = r; mount = m; events = [] }

abbrev pub pass : R (Unit {0})
pass = give (ok tt)

abbrev pub abort : {A : Type 0} → RunError → R A
abort e = give (err e)

abbrev pub emit : Export → R (Unit {0})
emit x m = record { outcome = ok tt; mount = m; events = exported m x ∷ [] }

abbrev pub outcome_result : {A : Type 0} → Outcome A → Result RunError A
outcome_result (done a) = ok a
outcome_result (failed e) = err (step_failed e)

abbrev pub changes : List Mount → List Event
changes [] = []
changes (m ∷ t) = changed m ∷ changes t

-- A part that works on the mount only.
abbrev pub lift : {A : Type 0} → M A → R A
lift p m = record {
  outcome = outcome_result (p m).outcome;
  mount = (p m).mount;
  events = changes (p m).trail;
}
