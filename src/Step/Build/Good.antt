-- ===== src/Step/Build/Good.antt =====
-- From a mount that is ready, each phase of `run` exports from mounts that are ready only, and leaves one.
use kernelbuild_buildkit.Common.{
  ◌||◌, ◌⊎◌, Bool, true, false, List, [], ◌∷◌, ◌≡◌, ◌∙◌, refl, ap, sym, Option, none, some, Bytes,
  beq, beq_iff, inl, inr, Bool-cases, arith,
}
use kernelbuild_buildkit.Seed.{SeedConfig}
use kernelbuild_buildkit.Step.Build.{
  Setting, bundle_kconfigs, require_modules, compile, compile_args, make_args, copy_artifacts,
  copy_file, copy_text, pack_modules, pack_staged, push_seed, upload_pack, publish, when,
  unless_failed, out_kconfigs, out_modules, install_args, config_enables, or_below,
}
use kernelbuild_buildkit.Step.Build.Log.{
  IsQuiet, Goes, IsQuiet-Goes, Goes-after_quiet, Goes->>=, lift-IsQuiet,
}
use kernelbuild_buildkit.Step.Configure.{config_name, marker_name, run_make, made_of}
use kernelbuild_buildkit.Step.Expect.{validate_expectations}
use kernelbuild_buildkit.Step.Mount.{Mount, get, put, delete, get-put, get-delete}
use kernelbuild_buildkit.Step.Report.{
  RunError, Export, compiled, wrote, pushed, push_failed, modules_disabled, kconfigs_failed,
  copy_failed, pack_failed, Report, R, ◌>>◌, pass, abort, emit, lift,
}
use kernelbuild_buildkit.Step.Rules.{Ends}
use kernelbuild_buildkit.Step.Run.{M, done, write, remove}
use kernelbuild_buildkit.Step.Sweep.{is_stale_seed}
use kernelbuild_buildkit.Step.Tree.{stamp_name, stamp_or_none}
use kernelbuild_buildkit.Step.Build.Ready.{IsReady, IsCareful}

abbrev is_judged : Bytes → Bool
is_judged k = beq k stamp_name || beq k marker_name || beq k config_name

judged-cases :
    (k : Bytes) → is_judged k ≡ true → (k ≡ stamp_name) ⊎ (k ≡ marker_name) ⊎ (k ≡ config_name)
judged-cases k h = elim (Bool-cases (beq k stamp_name)) [
  | inl e ↦ inl ((beq_iff k stamp_name).0 e)
  | inr e ↦ elim (Bool-cases (beq k marker_name)) [
    | inl g ↦ inr (inl ((beq_iff k marker_name).0 g))
    | inr g ↦ inr (inr ((beq_iff k config_name).0 (ground arith)))
  ]
]

-- None of them is the temporary pack of a seed.
judged-fresh : (k : Bytes) → is_judged k ≡ true → is_stale_seed k ≡ false
unfolding is_stale_seed
judged-fresh k h = elim (judged-cases k h) [
  | inl e ↦ rw e refl
  | inr (inl e) ↦ rw e refl
  | inr (inr e) ↦ rw e refl
]

module _ (b : Setting) where
  -- Other entries do not matter.
  IsReady-other :
      (n k : Mount)
      → ((i : Bytes) → is_judged i ≡ true → get i k ≡ get i n)
      → IsReady b n
      → IsReady b k
  unfolding beq
  IsReady-other n k same h =
      let (cfg, e, g) = h.marked in
      let (c, x) = h.expected in
      record {
        stamped = h.stamped ∙ ap (λ o. done (stamp_or_none o)) (sym (same stamp_name refl));
        marked = (cfg, e, same marker_name refl ∙ g);
        expected = (c, ap (validate_expectations b.expect) (same config_name refl) ∙ x);
      }

  pub delete-IsReady :
      (j : Bytes) (n : Mount) → is_judged j ≡ false → IsReady b n → IsReady b (delete j n)
  delete-IsReady j n ne h =
      IsReady-other n (delete j n) (λ i g. rw get-delete (ground (arith, beq_iff j i))) h

  pub put-IsReady :
      (j t : Bytes) (n : Mount) → is_judged j ≡ false → IsReady b n → IsReady b (put j t n)
  put-IsReady j t n ne h =
      IsReady-other n (put j t n) (λ i g. rw get-put (ground (arith, beq_iff j i))) h

  abbrev aborted : RunError → R (Unit {0})
  aborted e = abort e

  abbrev pub Good : {A : Type 0} → Report A → Type 0
  Good r = Goes (IsReady b) r

  pub pass-Good : (n : Mount) → IsReady b n → Good (pass n)
  pass-Good n h = record { all = tt; last = h }

  abort-Good : (e : RunError) (n : Mount) → Good (aborted e n)
  abort-Good e n = record { all = tt; last = tt }

  emit-Good : (x : Export) (n : Mount) → IsReady b n → Good (emit x n)
  emit-Good x n h = record { all = (h, tt); last = h }

  unless_failed-Good :
      (t : Bool) (e : RunError) (n : Mount) → IsReady b n → Good (unless_failed b t e n)
  unless_failed-Good true e n h = pass-Good n h
  unless_failed-Good false e n h = abort-Good e n

  pub when-Good :
      (t : Bool) (p : R (Unit {0})) (n : Mount)
      → IsReady b n
      → ((n : Mount) → IsReady b n → Good (p n))
      → Good (when b t p n)
  when-Good true p n h k = k n h
  when-Good false p n h k = pass-Good n h

  pub bundle_kconfigs-Good : (n : Mount) → IsReady b n → Good (bundle_kconfigs b n)
  unfolding bundle_kconfigs
  bundle_kconfigs-Good n h =
      Goes->>= (IsReady b) (emit (wrote out_kconfigs))
        (λ _ k. unless_failed b (b.bundles k) kconfigs_failed k) n (emit-Good _ n h)
        (λ _ k g. unless_failed-Good (b.bundles k) kconfigs_failed k g)

  pub require_modules-Good : (n : Mount) → IsReady b n → Good (require_modules b n)
  unfolding require_modules
  require_modules-Good n h =
      unless_failed-Good (config_enables b (get config_name n)) modules_disabled n h

  -- A run of make that leaves .config alone; the stamp and the marker it leaves alone anyway.
  abbrev pub SameConfig : List Bytes → Type 0
  SameConfig args = (n : Mount) → get config_name (b.world.make args n).left ≡ get config_name n

  module _ (careful : IsCareful b.world) where
    made-IsReady :
        (args : List Bytes) (n : Mount)
        → SameConfig args
        → IsReady b n
        → IsReady b (b.world.make args n).left
    made-IsReady args n same h =
        IsReady-other n (b.world.make args n).left
          (λ i g. elim (judged-cases i g) [
            | inl e ↦ rw e (careful.no_stamp args n)
            | inr (inl e) ↦ rw e (careful.same_marker args n)
            | inr (inr e) ↦ rw e (same n)
          ])
          h

    run_make-Ends :
        (args : List Bytes) (n : Mount)
        → SameConfig args
        → IsReady b n
        → Ends
            (λ _ k. IsReady b k)
            (run_make b.world args n).outcome
            (run_make b.world args n).mount
    unfolding run_make
    run_make-Ends args n same h = by_success (b.world.make args n).success
      where
        by_success :
            (t : Bool)
            → Ends (λ _ k. IsReady b k) (made_of b.world args t) (b.world.make args n).left
        by_success true = made-IsReady args n same h
        by_success false = tt

    make_args-Good :
        (args : List Bytes) (n : Mount) → SameConfig args → IsReady b n → Good (make_args b args n)
    unfolding make_args
    make_args-Good args n same h =
        Goes->>= (IsReady b) (emit (compiled args)) (λ _. lift (run_make b.world args)) n
          (emit-Good _ n h)
          (λ _ k g.
            IsQuiet-Goes (IsReady b) (lift (run_make b.world args) k)
              (lift-IsQuiet (IsReady b) (run_make b.world args) k (run_make-Ends args k same g)))

    pub compile-Good :
        (ts : List Bytes) (n : Mount)
        → SameConfig (compile_args b ts)
        → IsReady b n
        → Good (compile b ts n)
    unfolding compile
    compile-Good [] n same h = pass-Good n h
    compile-Good (t ∷ ts) n same h = make_args-Good (compile_args b (t ∷ ts)) n same h

    pub pack_modules-Good :
        (n : Mount)
        → ((dir : Bytes) → b.stage ≡ some dir → SameConfig (install_args b dir))
        → IsReady b n
        → Good (pack_modules b n)
    unfolding pack_modules
    pack_modules-Good n same h = by_stage b.stage refl
      where
        by_stage : (o : Option Bytes) → b.stage ≡ o → Good (pack_staged b o n)
        by_stage none e = abort-Good pack_failed n
        by_stage (some dir) e =
            Goes->>= (IsReady b) (make_args b (install_args b dir))
              (λ _. (emit (wrote out_modules) >> λ k. unless_failed b (b.packs k) pack_failed k)) n
              (make_args-Good (install_args b dir) n (same dir e) h)
              (λ _ k g.
                Goes->>= (IsReady b) (emit (wrote out_modules))
                  (λ _ i. unless_failed b (b.packs i) pack_failed i) k (emit-Good _ k g)
                  (λ _ i j. unless_failed-Good (b.packs i) pack_failed i j))

  copy_text-Good :
      (dst : Bytes) (o : Option Bytes) (n : Mount) → IsReady b n → Good (copy_text b dst o n)
  copy_text-Good dst none n h = abort-Good (copy_failed dst) n
  copy_text-Good dst (some text) n h =
      Goes->>= (IsReady b) (emit (wrote dst))
        (λ _. unless_failed b (b.writable dst) (copy_failed dst)) n (emit-Good _ n h)
        (λ _ k g. unless_failed-Good (b.writable dst) (copy_failed dst) k g)

  pub copy_file-Good : (src dst : Bytes) (n : Mount) → IsReady b n → Good (copy_file b src dst n)
  unfolding copy_file
  copy_file-Good src dst n h = copy_text-Good dst (or_below b n src (get src n)) n h

  pub copy_artifacts-Good :
      (l : List (Bytes × Bytes)) (n : Mount) → IsReady b n → Good (copy_artifacts b l n)
  unfolding copy_artifacts
  copy_artifacts-Good [] n h = pass-Good n h
  copy_artifacts-Good ((src, dst) ∷ l) n h =
      Goes->>= (IsReady b) (copy_file b src dst) _ n (copy_file-Good src dst n h)
        (λ _ k g. copy_artifacts-Good l k g)

  pub lift-Good :
      (p : M (Unit {0})) (n : Mount)
      → Ends (λ _ k. IsReady b k) (p n).outcome (p n).mount
      → IsQuiet (IsReady b) (lift p n)
  lift-Good p n h = lift-IsQuiet (IsReady b) p n h

  module _ (tmp : is_stale_seed b.seed_tmp ≡ true) where
    tmp-other : is_judged b.seed_tmp ≡ false
    tmp-other = elim (Bool-cases (is_judged b.seed_tmp)) [
      | inl e ↦ let f = judged-fresh b.seed_tmp e in cc
      | inr e ↦ e
    ]

    abbrev settle : Bytes → R (Unit {0})
    settle pack = lift (remove b.seed_tmp) >> unless_failed b (b.uploads pack) push_failed

    abbrev push_packed : SeedConfig → Bytes → R (Unit {0})
    push_packed c pack = emit (pushed c) >> settle pack

    settle-Good : (pack : Bytes) (n : Mount) → IsReady b n → Good (settle pack n)
    settle-Good pack n h =
        Goes-after_quiet (IsReady b) (lift (remove b.seed_tmp))
          (λ _. unless_failed b (b.uploads pack) push_failed) n (IsReady b)
          (lift-Good (remove b.seed_tmp) n (delete-IsReady b.seed_tmp n tmp-other h))
          (λ _ k g. unless_failed-Good (b.uploads pack) push_failed k g)

    upload_pack-Good :
        (c : SeedConfig) (o : Option Bytes) (n : Mount) → IsReady b n → Good (upload_pack b c o n)
    upload_pack-Good c none n h =
        Goes-after_quiet (IsReady b) (lift (remove b.seed_tmp)) (λ _. abort push_failed) n
          (IsReady b) (lift-Good (remove b.seed_tmp) n (delete-IsReady b.seed_tmp n tmp-other h))
          (λ _ k g. abort-Good push_failed k)
    upload_pack-Good c (some pack) n h =
        Goes-after_quiet (IsReady b) (lift (write b.seed_tmp pack)) (λ _. push_packed c pack) n
          (IsReady b)
          (lift-Good (write b.seed_tmp pack) n (put-IsReady b.seed_tmp pack n tmp-other h))
          (λ _ k g.
            Goes->>= (IsReady b) (emit (pushed c)) (λ _. settle pack) k (emit-Good _ k g)
              (λ _ i j. settle-Good pack i j))

    push_seed-Good : (c : SeedConfig) (n : Mount) → IsReady b n → Good (push_seed b c n)
    unfolding push_seed
    push_seed-Good c n h =
        Goes->>= (IsReady b) (unless_failed b b.s3_client push_failed)
          (λ _. lift (write b.seed_tmp []) >> λ i. upload_pack b c (b.seed_pack i) i) n
          (unless_failed-Good b.s3_client push_failed n h)
          (λ _ k g.
            Goes-after_quiet (IsReady b) (lift (write b.seed_tmp []))
              (λ _ i. upload_pack b c (b.seed_pack i) i) k (IsReady b)
              (lift-Good (write b.seed_tmp []) k (put-IsReady b.seed_tmp [] k tmp-other g))
              (λ _ i j. upload_pack-Good c (b.seed_pack i) i j))

    pub publish-Good : (o : Option SeedConfig) (n : Mount) → IsReady b n → Good (publish b o n)
    unfolding publish
    publish-Good none n h = pass-Good n h
    publish-Good (some c) n h = when-Good c.push (push_seed b c) n h (push_seed-Good c)
