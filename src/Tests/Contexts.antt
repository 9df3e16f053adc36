-- ===== src/Tests/Contexts.antt =====
-- The check of the context on the disk of the client, at concrete directories.
use kernelbuild_buildkit.Common.{
  true, false, [], ◌∷◌, Option, none, some, Bytes, codes, beq, ok, err, ◌≡◌, refl,
}
use kernelbuild_buildkit.Solve.{missing_file, no_patches_dir, no_patch_files, check_context}
use kernelbuild_buildkit.Solve.Local.{
  Directory, check_context_dir, serving, on_client, check_context_dir-check_context,
}
use kernelbuild_buildkit.Spec.{Spec}
use kernelbuild_buildkit.Spec.Source.{default_spec}

abbrev patched : Spec
patched = record default_spec { apply_patches = true }

abbrev bare_context : Directory
bare_context = record { has_file = beq (codes "kernel.config"); patches = none }

abbrev patched_context : Directory
patched_context = record {
  has_file = beq (codes "kernel.config");
  patches = some (codes "README" ∷ codes "1.patch" ∷ []);
}

abbrev empty_context : Directory
empty_context = record { has_file = λ name. false; patches = none }

abbrev resolved : Bytes → Bytes → Option (Bytes × Bytes)
resolved ref mode = some (ref, codes "sha256:00")

bare_refused : check_context_dir bare_context patched ≡ err no_patch_files
unfolding check_context_dir default_spec
bare_refused = refl

bare_refused_by_daemon : check_context (serving resolved bare_context) patched ≡ err no_patches_dir
unfolding check_context default_spec
bare_refused_by_daemon = refl

patched_passes : check_context_dir patched_context patched ≡ ok tt
unfolding check_context_dir default_spec
patched_passes = refl

config_missed :
    check_context_dir empty_context default_spec
    ≡ err (missing_file (codes "CONFIG") (codes "kernel.config"))
unfolding check_context_dir default_spec
config_missed = refl

check_context_dir-check_context_example :
    check_context_dir bare_context patched
    ≡ on_client (check_context (serving resolved bare_context) patched)
check_context_dir-check_context_example =
    check_context_dir-check_context resolved bare_context patched
