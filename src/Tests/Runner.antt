-- ===== src/Tests/Runner.antt =====
-- The runner on concrete mounts and worlds.
use kernelbuild_buildkit.Common.{
  ◌↔◌, fields, join, ℕ, ◌==◌, ◌≡◌, refl, ok, Bool, codes, true, false, some, none, Bytes, List, [],
  ◌∷◌, ◌++◌, every, split, beq, All, if◌then◌else◌, length, arith, Bool-cases, inl, inr,
}
use kernelbuild_buildkit.Graph.{kernel_llb, graph_of}
use kernelbuild_buildkit.Graph.Contract.{env_of, is_refusal, acquire_source-kernel_llb}
use kernelbuild_buildkit.Spec.Source.{default_spec}
use kernelbuild_buildkit.Step.Configure.{configure, config_id, marker_name, is_same}
use kernelbuild_buildkit.Step.Configure.Again.{base_words, configure-again}
use kernelbuild_buildkit.Step.Configure.Marker.{
  IsUnmarked, MakesNoMarker, IsMarked, configure-marks,
}
use kernelbuild_buildkit.Step.Download.{Answer, broken, response, download}
use kernelbuild_buildkit.Step.Download.Resume.{Begins, IsFaithful, download-whole}
use kernelbuild_buildkit.Step.Download.Schedule.{Fits, download-Fits}
use kernelbuild_buildkit.Step.Expect.{validate_expectations}
use kernelbuild_buildkit.Step.Expect.Gate.{passes, is_ok, validate_expectations-passes}
use kernelbuild_buildkit.Step.Mount.{Mount, get, delete}
use kernelbuild_buildkit.Step.Rules.{Ends, MeetsUntilLast}
use kernelbuild_buildkit.Step.Run.{done, failed, sha256_mismatch}
use kernelbuild_buildkit.Step.Source.{acquire_source}
use kernelbuild_buildkit.Step.Source.Laws.{IsVerified, acquire_source-IsVerified}
use kernelbuild_buildkit.Step.Tree.{read_stamp, nuke_tree, stamp_want, prepare_tree}
use kernelbuild_buildkit.Step.Tree.Crash.{
  IsSameTree, prepare_tree-crash, prepare_tree-keeps, prepare_tree-warm,
}
use kernelbuild_buildkit.Step.Tree.Stale.{IsHonest, is_warm}
use kernelbuild_buildkit.Step.World.{Env, World, whole, no_such_key}

abbrev env : Env
env = record {
  src_id = codes "aa";
  src_url = codes "https://example.com/linux.tar.gz";
  src_sha256 = codes "aa";
  src_local = [];
  apply_patches = codes "0";
  base_make = [];
  karch = codes "x86_64";
  cross_compile = [];
}

abbrev tree_files : List (Bytes × Bytes)
tree_files = (codes "COPYING", codes "text") ∷ (codes "Makefile", codes "all:") ∷ []

-- A world whose only tarball has the sum "aa", and whose make leaves the mount as it is.
abbrev world : World
world = record {
  env = env;
  src_file = λ name. none;
  kernel_config = some (codes "CONFIG_NET=y\n");
  patch_series = none;
  sha256_hex = λ body. codes "aa";
  download = λ url. whole (codes "tarball");
  unpack = λ name body. record { entries = tree_files; complete = true };
  patched = λ m. record { entries = []; complete = true };
  pull_seed = no_such_key;
  make = λ args m. record { between = []; left = m; success = true };
}

abbrev want : Bytes
want = codes "src=aa patches=none"

stamp_want-world : stamp_want world ≡ done want
unfolding stamp_want
stamp_want-world = refl

world-IsHonest : IsHonest world
unfolding beq
world-IsHonest = record { unpacked = λ name body. refl; patched = λ m. refl; seed = λ u h c. cc }

-- A tree of an older source.
abbrev stale_mount : Mount
stale_mount =
    (codes ".kbf-stamp", codes "src=bb patches=none")
    ∷ (codes "Makefile", codes "all:")
    ∷ (codes "vmlinux.o", codes "object")
    ∷ []

abbrev warm_mount : Mount
warm_mount = (codes ".kbf-stamp", want) ∷ (codes "Makefile", codes "all:") ∷ []

cold_stale : is_warm want stale_mount ≡ false
unfolding get beq
cold_stale = refl

warm_warm : is_warm want warm_mount ≡ true
unfolding get beq
warm_warm = refl

prepare_tree-crash_example :
    MeetsUntilLast
      (λ n. is_warm want n ≡ false)
      (λ _ n. read_stamp n ≡ want)
      (prepare_tree world none stale_mount)
prepare_tree-crash_example =
    prepare_tree-crash world none want stale_mount world-IsHonest stamp_want-world cold_stale

prepare_tree-warm_example :
    prepare_tree world none warm_mount
    ≡ record { outcome = done tt; mount = warm_mount; trail = [] }
prepare_tree-warm_example = prepare_tree-warm world none want warm_mount stamp_want-world warm_warm

-- The same world, with a tarball of another sum.
abbrev mistyped : World
mistyped = record world { sha256_hex = λ body. codes "bb" }

stamp_want-mistyped : stamp_want mistyped ≡ done want
unfolding stamp_want
stamp_want-mistyped = refl

acquire_mistyped :
    (acquire_source mistyped stale_mount).outcome
    ≡ failed (sha256_mismatch (codes "bb") (codes "aa"))
unfolding acquire_source get
acquire_mistyped = refl

prepare_tree-keeps_example :
    ((prepare_tree mistyped none stale_mount).outcome
      ≡ failed (sha256_mismatch (codes "bb") (codes "aa")))
    × All (IsSameTree stale_mount) (prepare_tree mistyped none stale_mount).trail
unfolding get beq
prepare_tree-keeps_example =
    prepare_tree-keeps mistyped none want stale_mount (sha256_mismatch (codes "bb") (codes "aa"))
      stamp_want-mistyped refl refl acquire_mistyped

acquire_source-IsVerified_example :
    Ends
      (IsVerified world)
      (acquire_source world stale_mount).outcome
      (acquire_source world stale_mount).mount
acquire_source-IsVerified_example = acquire_source-IsVerified world stale_mount

world-MakesNoMarker : MakesNoMarker world
world-MakesNoMarker args m u = (tt, u)

new_config :
    is_same (get marker_name stale_mount) (config_id world (codes "CONFIG_NET=y\n")) ≡ false
unfolding get beq
new_config = refl

configure-marks_example :
    MeetsUntilLast IsUnmarked
      (λ _ n. IsMarked world world-MakesNoMarker (codes "CONFIG_NET=y\n") n)
      (configure world stale_mount)
configure-marks_example =
    configure-marks world (codes "CONFIG_NET=y\n") stale_mount world-MakesNoMarker refl new_config

abbrev marked_mount : Mount
marked_mount =
    (codes ".config", codes "CONFIG_NET=y\n")
    ∷ (codes ".kbf-config-src", codes "base-make=" ++ (0 ∷ codes "CONFIG_NET=y\n"))
    ∷ []

marked_config : get marker_name marked_mount ≡ some (config_id world (codes "CONFIG_NET=y\n"))
unfolding get config_id
marked_config = refl

abbrev over_defconfig : World
over_defconfig = record world { env = record world.env { base_make = codes "x86_64_defconfig" } }

configured : (configure world stale_mount).outcome ≡ done tt
unfolding configure get
configured = refl

configure-again_example :
    ((configure over_defconfig (configure world stale_mount).mount).trail ≡ []) ↔ (
      (base_words world ≡ base_words over_defconfig)
      × (codes "CONFIG_NET=y\n" ≡ codes "CONFIG_NET=y\n"))
configure-again_example =
    configure-again world over_defconfig (codes "CONFIG_NET=y\n") (codes "CONFIG_NET=y\n")
      stale_mount world-MakesNoMarker (unfold fields join in refl) (unfold fields join in refl) refl
      refl configured

kernel_llb_default :
    kernel_llb (λ b. codes "0123456789abcdef") [] default_spec
    ≡ ok (graph_of (λ b. codes "0123456789abcdef") [] default_spec)
unfolding kernel_llb default_spec
kernel_llb_default = refl

abbrev default_world : World
default_world = record world {
  env = env_of (graph_of (λ b. codes "0123456789abcdef") [] default_spec);
}

acquire_source-kernel_llb_example : is_refusal (acquire_source default_world []).outcome ≡ false
acquire_source-kernel_llb_example =
    acquire_source-kernel_llb (λ b. codes "0123456789abcdef") [] default_spec
      (graph_of (λ b. codes "0123456789abcdef") [] default_spec) default_world [] kernel_llb_default
      refl

-- A server that breaks off after two bytes and resumes.
abbrev serve : ℕ → ℕ → Answer
serve attempt have =
    if have == 0
    then response 200 [] (codes "ab") false
    else if have == 2
    then response 206 [] (codes "cd") true
    else response 416 [] [] true

serve_start :
    (have : ℕ) (after body : Bytes) (c : Bool) (attempt : ℕ)
    → serve attempt have ≡ response 200 after body c
    → Begins (codes "abcd") body c
serve_start have after body c attempt h = elim (Bool-cases (have == 0)) [
  | inl e ↦
      let first : body ≡ codes "ab" = ground arith in
      let part : c ≡ false = ground arith in rw (first, part) (codes "cd", (refl, λ k. cc))
  | inr e ↦ let never : serve attempt have ≡ response 200 after body c = h in ground arith
]

serve_offset :
    (first rest after body : Bytes) (c : Bool) (attempt : ℕ)
    → codes "abcd" ≡ first ++ rest
    → serve attempt (length first) ≡ response 206 after body c
    → Begins rest body c
serve_offset [] rest after body c attempt e h = ground arith
serve_offset (x ∷ []) rest after body c attempt e h = ground arith
serve_offset (x ∷ y ∷ []) rest after body c attempt e h =
    let whole_rest : rest ≡ codes "cd" = ground arith in
    let sent : body ≡ codes "cd" = ground arith in rw (whole_rest, sent) ([], (refl, λ k. refl))
serve_offset (x ∷ y ∷ z ∷ first) rest after body c attempt e h = ground arith

serve-IsFaithful : IsFaithful (codes "abcd") serve
serve-IsFaithful = record {
  from_start = λ attempt have after body c h. serve_start have after body c attempt h;
  from_offset =
      λ attempt first rest after body c e h. serve_offset first rest after body c attempt e h;
}

download_serve : (download serve (λ a. false)).result ≡ ok tt
unfolding download
download_serve = refl

download-whole_example : (download serve (λ a. false)).part ≡ some (codes "abcd")
download-whole_example =
    download-whole (codes "abcd") serve (λ a. false) serve-IsFaithful download_serve

expectations_met :
    validate_expectations
      (some (codes "y CONFIG_NET\nn CONFIG_A\n"))
      (some (codes "CONFIG_NET=m\n"))
    ≡ ok 2
unfolding validate_expectations
expectations_met = refl

validate_expectations-passes_example :
    is_ok (validate_expectations (some (codes "y CONFIG_NET\n")) (some (codes "CONFIG_NET=m\n")))
    ≡ every (passes (split 10 (codes "CONFIG_NET=m\n"))) (split 10 (codes "y CONFIG_NET\n"))
validate_expectations-passes_example =
    validate_expectations-passes (codes "y CONFIG_NET\n") (codes "CONFIG_NET=m\n")

download-Fits_example : Fits 5 4 (download (λ a h. broken false) (λ a. false))
download-Fits_example = download-Fits (λ a h. broken false) (λ a. false)

-- The tree of another source, configured.
abbrev configured_mount : Mount
configured_mount =
    (codes ".config", codes "CONFIG_NET=y\n")
    ∷ (codes ".kbf-config-src", codes "base-make=")
    ∷ (codes ".kbf-stamp", codes "src=bb patches=none")
    ∷ (codes "Makefile", codes "all:")
    ∷ []

abbrev first_mount : List Mount → Mount
first_mount [] = []
first_mount (m ∷ ms) = m

-- `nukeTree`, killed after its first removal: the tree is still warm for the source that it was of, and
-- has lost its .config.
nuke_tree-midway :
    (is_warm (codes "src=bb patches=none") (first_mount (nuke_tree configured_mount).trail) ≡ true)
    × (get (codes ".config") (first_mount (nuke_tree configured_mount).trail) ≡ none)
unfolding nuke_tree get beq delete
nuke_tree-midway = (refl, refl)
