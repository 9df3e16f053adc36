-- ===== src/Step/Build/Ready.antt =====
-- Nothing leaves the runner but from a tree that is ready for this build.
use kernelbuild_buildkit.Common.{
  ℕ, true, [], ◌≡◌, ◌∙◌, refl, ap, sym, Option, none, some, Bytes, beq, beq_iff, inl, inr,
  Bool-cases, Result, ok, err, arith,
}
use kernelbuild_buildkit.Seed.{SeedConfig}
use kernelbuild_buildkit.Step.Build.{Setting, expectation_gate, gate_result}
use kernelbuild_buildkit.Step.Build.Log.{EndsIn, IsQuiet}
use kernelbuild_buildkit.Step.Configure.{
  config_name, marker_name, config_id, configure, configure_with, is_same,
}
use kernelbuild_buildkit.Step.Configure.Marker.{MakesNoMarker, configure-marks, configure-skips}
use kernelbuild_buildkit.Step.Configure.Untouched.{MakesNot, configure-Keeps}
use kernelbuild_buildkit.Step.Expect.{validate_expectations, ExpectError}
use kernelbuild_buildkit.Step.Mount.{Mount, get}
use kernelbuild_buildkit.Step.Rules.{Ends}
use kernelbuild_buildkit.Step.Run.{Outcome, done, failed, no_config, StepError}
use kernelbuild_buildkit.Step.Tree.{
  prepare_tree, stamp_want, read_stamp, stamp_name, stamp_or_none, prepare_with,
}
use kernelbuild_buildkit.Step.Tree.Crash.{prepare_tree-crash, prepare_tree-warm}
use kernelbuild_buildkit.Step.Tree.Stale.{is_warm, IsHonest}
use kernelbuild_buildkit.Step.World.{World}

-- A mount with the stamp of this build's inputs.
abbrev pub IsStamped : World → Mount → Type 0
IsStamped w n = stamp_want w ≡ done (read_stamp n)

configure-none :
    (w : World) (m : Mount)
    → w.kernel_config ≡ none
    → configure w m ≡ record { outcome = failed no_config; mount = m; trail = [] }
unfolding configure configure_with
configure-none w m e = ap (λ o. configure_with w o m) e

Ends-mono :
    (Q S : Mount → Type 0) (o : Outcome (Unit {0})) (m : Mount)
    → (Q m → S m)
    → Ends (λ _ n. Q n) o m
    → Ends (λ _ n. S n) o m
Ends-mono Q S (done a) m f h = f h
Ends-mono Q S (failed e) m f h = tt

Ends-both :
    (Q S : Mount → Type 0) (o : Outcome (Unit {0})) (m : Mount)
    → Ends (λ _ n. Q n) o m
    → Ends (λ _ n. S n) o m
    → Ends (λ _ n. Q n × S n) o m
Ends-both Q S (done a) m h k = (h, k)
Ends-both Q S (failed e) m h k = tt

prepare_tree-failed :
    (w : World) (seed : Option SeedConfig) (m : Mount) (x : StepError)
    → stamp_want w ≡ failed x
    → prepare_tree w seed m ≡ record { outcome = failed x; mount = m; trail = [] }
unfolding prepare_tree
prepare_tree-failed w seed m x e = ap (λ o. prepare_with w o seed m) e

pub prepare_tree-stamped :
    (w : World) (seed : Option SeedConfig) (m : Mount)
    → IsHonest w
    → Ends (λ _ n. IsStamped w n) (prepare_tree w seed m).outcome (prepare_tree w seed m).mount
prepare_tree-stamped w seed m honest = by_want (stamp_want w) refl
  where
    by_want :
        (o : Outcome Bytes)
        → stamp_want w ≡ o
        → Ends (λ _ n. IsStamped w n) (prepare_tree w seed m).outcome (prepare_tree w seed m).mount
    by_want (failed x) e = rw (prepare_tree-failed w seed m x e) tt
    by_want (done want) e = elim (Bool-cases (is_warm want m)) [
      | inl warm ↦
          let same : read_stamp m ≡ want = (beq_iff (read_stamp m) want).0 (ground arith) in
          rw (prepare_tree-warm w seed want m e warm) (e ∙ ap done (sym same))
      | inr cold ↦
          Ends-mono (λ n. read_stamp n ≡ want) (IsStamped w) (prepare_tree w seed m).outcome
            (prepare_tree w seed m).mount (λ h. e ∙ ap done (sym h))
            (prepare_tree-crash w seed want m honest e cold).ends
    ]

-- What the marker says is this build's configuration.
abbrev pub IsMarkedFor : World → Mount → Type 0
IsMarkedFor w n =
    (cfg : Bytes) × (w.kernel_config ≡ some cfg) × (get marker_name n ≡ some (config_id w cfg))

is_same-eq : (o : Option Bytes) (id : Bytes) → is_same o id ≡ true → o ≡ some id
is_same-eq none id h = cc
is_same-eq (some prev) id h = ap some ((beq_iff prev id).0 h)

pub configure-marked :
    (w : World) (m : Mount)
    → MakesNoMarker w
    → Ends (λ _ n. IsMarkedFor w n) (configure w m).outcome (configure w m).mount
configure-marked w m honest = by_config (w.kernel_config) refl
  where
    by_config :
        (o : Option Bytes)
        → w.kernel_config ≡ o
        → Ends (λ _ n. IsMarkedFor w n) (configure w m).outcome (configure w m).mount
    by_config none e = rw (configure-none w m e) tt
    by_config (some cfg) e = elim (Bool-cases (is_same (get marker_name m) (config_id w cfg))) [
      | inl same ↦
          let marked = is_same-eq (get marker_name m) (config_id w cfg) same in
          rw (configure-skips w cfg m e marked) (cfg, e, marked)
      | inr other ↦
          Ends-mono _ (IsMarkedFor w) (configure w m).outcome (configure w m).mount
            (λ h. (cfg, e, h.0)) (configure-marks w cfg m honest e other).ends
    ]

-- make leaves the marker and the stamp alone, and makes no marker where there is none.
pub record IsCareful (w : World) : Type 0 where
  pub no_marker : MakesNoMarker w
  pub same_marker : MakesNot w marker_name
  pub no_stamp : MakesNot w stamp_name

pub configure-Ends :
    (w : World) (m : Mount)
    → IsCareful w
    → IsStamped w m
    → Ends (λ _ n. IsStamped w n × IsMarkedFor w n) (configure w m).outcome (configure w m).mount
unfolding beq
configure-Ends w m careful h =
    let kept : Ends (λ _ n. get stamp_name n ≡ get stamp_name m) (configure w m).outcome
        (configure w m).mount =
      (configure-Keeps w stamp_name (get stamp_name m) careful.no_stamp refl refl m refl).ends in
    Ends-both (IsStamped w) (IsMarkedFor w) (configure w m).outcome (configure w m).mount
      (Ends-mono (λ n. get stamp_name n ≡ get stamp_name m) (IsStamped w) (configure w m).outcome
        (configure w m).mount (λ k. h ∙ ap (λ o. done (stamp_or_none o)) (sym k)) kept)
      (configure-marked w m careful.no_marker)

module _ (b : Setting) where
  -- A tree of this build's inputs, configured by its configuration, that meets its expectations.
  pub record IsReady (n : Mount) : Type 0 where
    pub stamped : IsStamped b.world n
    pub marked : IsMarkedFor b.world n
    pub expected : (k : ℕ) × (validate_expectations b.expect (get config_name n) ≡ ok k)

  pub gate-IsQuiet :
      (m : Mount)
      → IsStamped b.world m × IsMarkedFor b.world m
      → IsQuiet IsReady (expectation_gate b m)
  unfolding expectation_gate
  gate-IsQuiet m (h, k) = record {
    nothing = refl;
    ends = by_gate (validate_expectations b.expect (get config_name m)) refl;
  }
    where
      by_gate :
          (r : Result ExpectError ℕ)
          → validate_expectations b.expect (get config_name m) ≡ r
          → EndsIn IsReady (gate_result r) m
      by_gate (err e) g = tt
      by_gate (ok n) g = record { stamped = h; marked = k; expected = (n, g) }
