-- ===== src/Step/Configure/Again.antt =====
-- When a `configure` (cmd/kbuild-step/main.go) does again what an earlier one has done.
use mathlib.Core.Option.{some-injective}
use kernelbuild_buildkit.Common.{
  ◌==◌, Bool, true, false, not, [], drop, ◌≡◌, ◌∙◌, ◌↔◌, refl, sym, ap, some, Bytes, codes, beq,
  beq_iff, fields, join, every, cut, cut-append, Bool-cases, inl, inr,
}
use kernelbuild_buildkit.Step.Build.Ready.{IsMarkedFor, configure-marked}
use kernelbuild_buildkit.Step.Configure.{marker_name, is_same, config_id, configure, reconfigure}
use kernelbuild_buildkit.Step.Configure.Marker.{
  MakesNoMarker, configure-at, configure-skips, configure_with-new,
}
use kernelbuild_buildkit.Step.Mount.{Mount, get}
use kernelbuild_buildkit.Step.Rules.{Ends}
use kernelbuild_buildkit.Step.Run.{Outcome, done, failed}
use kernelbuild_buildkit.Step.World.{World}

-- The words of BASE_MAKE, each after a space but the first.
abbrev pub base_words : World → Bytes
base_words w = join (codes " ") (fields w.env.base_make)

abbrev pub has_no_nul : Bytes → Bool
has_no_nul = every (λ c. not (c == 0))

id_words :
    (w : World) (cfg : Bytes)
    → has_no_nul (base_words w) ≡ true
    → cut 0 (drop 10 (config_id w cfg)) ≡ (base_words w, some cfg)
unfolding config_id
id_words w cfg h = cut-append 0 (base_words w) cfg h

config_id-injective :
    (w v : World) (cfg new : Bytes)
    → has_no_nul (base_words w) ≡ true
    → has_no_nul (base_words v) ≡ true
    → config_id w cfg ≡ config_id v new
    → (base_words w ≡ base_words v) × (cfg ≡ new)
config_id-injective w v cfg new h k e =
    let same : (base_words w, some cfg) ≡ (base_words v, some new) =
      sym (id_words w cfg h) ∙ (ap (λ i. cut 0 (drop 10 i)) e ∙ id_words v new k) in
    (ap (λ p. p.0) same, some-injective cfg new (ap (λ p. p.1) same))

config_id-same :
    (w v : World) (cfg new : Bytes)
    → base_words w ≡ base_words v
    → cfg ≡ new
    → config_id w cfg ≡ config_id v new
unfolding config_id
config_id-same w v cfg new h k = rw (h, k) refl

reconfigure-changes : (w : World) (cfg : Bytes) (n : Mount) → ¬ ((reconfigure w cfg n).trail ≡ [])
unfolding reconfigure
reconfigure-changes w cfg n h = cc

ends_of :
    (Q : Mount → Type 0) (o : Outcome (Unit {0})) (m : Mount)
    → o ≡ done tt
    → Ends (λ _ n. Q n) o m
    → Q m
ends_of Q (done a) m e h = h
ends_of Q (failed x) m e h = cc

-- After a `configure` that has succeeded, one of another build on the mount that it left changes
-- nothing exactly if the two builds have the same words in BASE_MAKE and the same configuration. make
-- leaves the marker alone, and BASE_MAKE, an environment variable, has no NUL byte.
pub configure-again :
    (w v : World) (cfg new : Bytes) (m : Mount)
    → MakesNoMarker w
    → has_no_nul (base_words w) ≡ true
    → has_no_nul (base_words v) ≡ true
    → w.kernel_config ≡ some cfg
    → v.kernel_config ≡ some new
    → (configure w m).outcome ≡ done tt
    → ((configure v (configure w m).mount).trail ≡ [])
      ↔ ((base_words w ≡ base_words v) × (cfg ≡ new))
configure-again w v cfg new m honest plain other has has_new succeeded = (
  λ e. elim (Bool-cases (beq (config_id w cfg) (config_id v new))) [
    | inl q ↦
        config_id-injective w v cfg new plain other
          ((beq_iff (config_id w cfg) (config_id v new)).0 q)
    | inr q ↦ absurd (reconfigure-changes v new n (sym (ap (λ r. r.trail) (remade q)) ∙ e))
  ],
  λ (words, text).
      ap (λ r. r.trail)
        (configure-skips v new n has_new
          (marked ∙ ap some (config_id-same w v cfg new words text))),
)
  where
    n : Mount
    n = (configure w m).mount

    marked : get marker_name n ≡ some (config_id w cfg)
    marked =
        let (text, is, at) : IsMarkedFor w n =
          ends_of (IsMarkedFor w) (configure w m).outcome n succeeded
            (configure-marked w m honest) in
        at ∙ ap (λ t. some (config_id w t)) (some-injective text cfg (sym is ∙ has))

    remade : beq (config_id w cfg) (config_id v new) ≡ false → configure v n ≡ reconfigure v new n
    remade q =
        configure-at v new n has_new
        ∙ configure_with-new v new n (ap (λ o. is_same o (config_id v new)) marked ∙ q)
