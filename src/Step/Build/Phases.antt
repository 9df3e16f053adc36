-- ===== src/Step/Build/Phases.antt =====
-- What each phase of `run` has done when it succeeds.
use kernelbuild_buildkit.Common.{
  ◌≡◌, ◌∙◌, refl, ap, inl, Option, none, some, Bytes, List, [], ◌∷◌, ok, Bool, true, false, All,
  subst,
}
use kernelbuild_buildkit.Seed.{SeedConfig}
use kernelbuild_buildkit.Step.Build.{
  Setting, bundle_kconfigs, compile, compile_args, install_args, make_args, copy_artifacts,
  copy_file, copy_text, pack_modules, pack_staged, push_seed, upload_pack, publish, when,
  unless_failed, out_modules, out_kconfigs, or_below,
}
use kernelbuild_buildkit.Step.Build.Log.{exports}
use kernelbuild_buildkit.Step.Configure.{run_make}
use kernelbuild_buildkit.Step.Mount.{Mount, get, put}
use kernelbuild_buildkit.Step.Report.{
  RunError, Export, compiled, wrote, pushed, push_failed, pack_failed, kconfigs_failed, copy_failed,
  R, ◌>>◌, emit, lift, outcome_result,
}
use kernelbuild_buildkit.Step.Run.{Outcome, done, failed, write}
use kernelbuild_buildkit.Step.Build.Has.{Has, Within, both_ok, first-Within, second-Within}

outcome_result-done : (o : Outcome (Unit {0})) → outcome_result o ≡ ok tt → o ≡ done tt
outcome_result-done (done u) h = refl
outcome_result-done (failed e) h = cc

module _ (b : Setting) where
  -- A run of make that succeeds from a mount.
  abbrev pub Makes : List Bytes → Mount → Type 0
  Makes args m = (run_make b.world args m).outcome ≡ done tt

  -- The file is there, and its copy is written to the end.
  abbrev pub Copied : Bytes → Bytes → Mount → Type 0
  Copied src dst m =
      ((text : Bytes) × (or_below b m src (get src m) ≡ some text)) × (b.writable dst ≡ true)

  abbrev pub Bundled : Mount → Type 0
  Bundled m = b.bundles m ≡ true

  abbrev pub Packed : Mount → Type 0
  Packed m = b.packs m ≡ true

  -- The pack of a tree stands in the temporary file, and its upload comes to the end.
  abbrev pub Uploaded : Mount → Type 0
  Uploaded m =
      (n : Mount) × (pack : Bytes) × (b.seed_pack n ≡ some pack)
      × (m ≡ put b.seed_tmp pack n)
      × (b.uploads pack ≡ true)

  unless_failed-true :
      (t : Bool) (e : RunError) (m : Mount) → (unless_failed b t e m).outcome ≡ ok tt → t ≡ true
  unless_failed-true true e m h = refl
  unless_failed-true false e m h = cc

  make_args-Has :
      (args : List Bytes) (m : Mount)
      → (make_args b args m).outcome ≡ ok tt
      → Has (Makes args) (compiled args) (exports (make_args b args m).events)
  unfolding make_args
  make_args-Has args m h = inl (refl, outcome_result-done (run_make b.world args m).outcome h)

  copy_text-Has :
      (src dst : Bytes) (o : Option Bytes) (m : Mount)
      → or_below b m src (get src m) ≡ o
      → (copy_text b dst o m).outcome ≡ ok tt
      → Has (Copied src dst) (wrote dst) (exports (copy_text b dst o m).events)
  copy_text-Has src dst none m e h = cc
  copy_text-Has src dst (some text) m e h =
      inl (refl, ((text, e), unless_failed-true (b.writable dst) (copy_failed dst) m h))

  pub copy_file-Has :
      (src dst : Bytes) (m : Mount)
      → (copy_file b src dst m).outcome ≡ ok tt
      → Has (Copied src dst) (wrote dst) (exports (copy_file b src dst m).events)
  unfolding copy_file
  copy_file-Has src dst m h = copy_text-Has src dst (or_below b m src (get src m)) m refl h

  -- The artifacts of a list are all copied.
  abbrev pub AllWrote : List (Bytes × Bytes) → List (Mount × Export) → Type 0
  AllWrote l log = All (λ a. Has (Copied a.0 a.1) (wrote a.1) log) l

  pub AllWrote-mono :
      (l : List (Bytes × Bytes)) (u v : List (Mount × Export))
      → Within u v
      → AllWrote l u
      → AllWrote l v
  AllWrote-mono [] u v f h = tt
  AllWrote-mono ((src, dst) ∷ l) u v f (h, hs) =
      (f (Copied src dst) (wrote dst) h, AllWrote-mono l u v f hs)

  pub copy_artifacts-AllWrote :
      (l : List (Bytes × Bytes)) (m : Mount)
      → (copy_artifacts b l m).outcome ≡ ok tt
      → AllWrote l (exports (copy_artifacts b l m).events)
  unfolding copy_artifacts
  copy_artifacts-AllWrote [] m h = tt
  copy_artifacts-AllWrote ((src, dst) ∷ l) m h =
      let o = both_ok (copy_file b src dst) (λ _. copy_artifacts b l) m tt h in
      (
        first-Within (copy_file b src dst) (λ _. copy_artifacts b l) m tt o (Copied src dst)
            (wrote dst) (copy_file-Has src dst m o.first),
        AllWrote-mono l _ _ (second-Within (copy_file b src dst) (λ _. copy_artifacts b l) m tt o)
            (copy_artifacts-AllWrote l (copy_file b src dst m).mount o.second),
      )

  -- The modules are staged by make, and packed.
  abbrev pub HasModules : List (Mount × Export) → Type 0
  HasModules log =
      (dir : Bytes) × (b.stage ≡ some dir)
      × Has (Makes (install_args b dir)) (compiled (install_args b dir)) log
      × Has Packed (wrote out_modules) log

  pub HasModules-mono : (u v : List (Mount × Export)) → Within u v → HasModules u → HasModules v
  HasModules-mono u v f (dir, e, made, packed) = (dir, e, f _ _ made, f _ _ packed)

  pub pack_modules-Has :
      (m : Mount)
      → (pack_modules b m).outcome ≡ ok tt
      → HasModules (exports (pack_modules b m).events)
  unfolding pack_modules
  pack_modules-Has m h = by_stage b.stage refl h
    where
      by_stage :
          (o : Option Bytes)
          → b.stage ≡ o
          → (pack_staged b o m).outcome ≡ ok tt
          → HasModules (exports (pack_staged b o m).events)
      by_stage none e h = cc
      by_stage (some dir) e h =
          let p = make_args b (install_args b dir) in
          let f : Unit {0} → R (Unit {0}) =
            λ _. (emit (wrote out_modules) >> λ n. unless_failed b (b.packs n) pack_failed n) in
          let o = both_ok p f m tt h in
          (
            dir,
            e,
            first-Within p f m tt o _ _ (make_args-Has (install_args b dir) m o.first),
            second-Within p f m tt o Packed (wrote out_modules) (
                inl (
                  refl,
                  unless_failed-true (b.packs (p m).mount) pack_failed (p m).mount o.second,
                )),
          )

  -- The client is there, and the seed is uploaded.
  abbrev pub HasSeed : SeedConfig → List (Mount × Export) → Type 0
  HasSeed c log = (b.s3_client ≡ true) × Has Uploaded (pushed c) log

  upload_pack-Has :
      (c : SeedConfig) (o : Option Bytes) (n : Mount)
      → b.seed_pack n ≡ o
      → (upload_pack b c o n).outcome ≡ ok tt
      → Has Uploaded (pushed c) (exports (upload_pack b c o n).events)
  upload_pack-Has c none n e h = cc
  upload_pack-Has c (some pack) n e h =
      inl (refl, (n, pack, e, refl, unless_failed-true (b.uploads pack) push_failed _ h))

  pub push_seed-Has :
      (c : SeedConfig) (m : Mount)
      → (push_seed b c m).outcome ≡ ok tt
      → HasSeed c (exports (push_seed b c m).events)
  unfolding push_seed
  push_seed-Has c m h =
      let f : Unit {0} → R (Unit {0}) =
        λ _. (lift (write b.seed_tmp []) >> λ i. upload_pack b c (b.seed_pack i) i) in
      let o = both_ok (unless_failed b b.s3_client push_failed) f m tt h in
      (
        unless_failed-true b.s3_client push_failed m o.first,
        second-Within (unless_failed b b.s3_client push_failed) f m tt o Uploaded (pushed c)
            (upload_pack-Has c (b.seed_pack _) _ refl o.second),
      )

  -- What a successful part on demand has done.
  pub when-Has :
      (t : Bool) (p : R (Unit {0})) (m : Mount) (S : List (Mount × Export) → Type 0)
      → ((p m).outcome ≡ ok tt → S (exports (p m).events))
      → (when b t p m).outcome ≡ ok tt
      → t ≡ true
      → S (exports (when b t p m).events)
  when-Has true p m S f h e = f h
  when-Has false p m S f h e = cc

  pub publish-Has :
      (o : Option SeedConfig) (m : Mount) (c : SeedConfig)
      → (publish b o m).outcome ≡ ok tt
      → o ≡ some c
      → c.push ≡ true
      → HasSeed c (exports (publish b o m).events)
  unfolding publish
  publish-Has none m c h e g = cc
  publish-Has (some d) m c h e g =
      let same : d ≡ c = cc in
      when-Has d.push (push_seed b d) m (HasSeed c)
        (λ o. subst (λ x. HasSeed x (exports (push_seed b d m).events)) same (push_seed-Has d m o))
        h (ap (λ x. x.push) same ∙ g)

  pub compile-Has :
      (l : List Bytes) (m : Mount) (t : Bytes) (ts : List Bytes)
      → (compile b l m).outcome ≡ ok tt
      → l ≡ t ∷ ts
      → Has
          (Makes (compile_args b (t ∷ ts)))
          (compiled (compile_args b (t ∷ ts)))
          (exports (compile b l m).events)
  unfolding compile
  compile-Has [] m t ts h e = cc
  compile-Has (u ∷ us) m t ts h e =
      subst
        (λ l.
          Has (Makes (compile_args b l)) (compiled (compile_args b l))
            (exports (make_args b (compile_args b (u ∷ us)) m).events))
        e (make_args-Has (compile_args b (u ∷ us)) m h)

  pub bundle_kconfigs-Has :
      (m : Mount)
      → (bundle_kconfigs b m).outcome ≡ ok tt
      → Has Bundled (wrote out_kconfigs) (exports (bundle_kconfigs b m).events)
  unfolding bundle_kconfigs
  bundle_kconfigs-Has m h = inl (refl, unless_failed-true (b.bundles m) kconfigs_failed m h)
