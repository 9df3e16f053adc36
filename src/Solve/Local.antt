-- ===== src/Solve/Local.antt =====
-- `checkContextDir` of gateway.go: the check of the context on the disk of the client, before the daemon
-- is dialed.
use kernelbuild_buildkit.Common.{
  Bool, true, false, List, [], ◌∷◌, Option, none, some, Bytes, if◌then◌else◌, Result, ok, err, ◌>>◌,
  ◌≡◌, ◌∙◌, refl, ap, sym, Bool-cases, inl, inr,
}
use kernelbuild_buildkit.Solve.{
  SolveError, missing_file, no_patches_dir, no_patch_files, unreadable_context, bad_spec,
  unresolved, no_digest, bad_graph, Daemon, context_files, has_patch, check_listed, check_files,
  check_patches, check_context,
}
use kernelbuild_buildkit.Spec.{Spec}

-- The directory of the context: whether os.Stat finds a file, and the names in patches, where it is
-- there.
pub record Directory : Type 0 where
  pub has_file : Bytes → Bool
  pub patches : Option (List Bytes)

-- What filepath.Glob finds of patches/*.patch: without the directory, nothing.
abbrev pub globs_patch : Option (List Bytes) → Bool
globs_patch none = false
globs_patch (some names) = has_patch names

unfoldable pub check_dir_files : Directory → List (Bytes × Bytes) → Result SolveError (Unit {0})
check_dir_files dir [] = ok tt
check_dir_files dir ((key, name) ∷ fs) =
    let rest = check_dir_files dir fs in
    if dir.has_file name then rest else err (missing_file key name)

unfoldable pub check_context_dir : Directory → Spec → Result SolveError (Unit {0})
unfolding context_files check_dir_files has_patch
check_context_dir dir s = do
  check_dir_files dir (context_files s)
  if s.apply_patches then (if globs_patch dir.patches then ok tt else err no_patch_files) else ok tt

-- A daemon whose gateway answers from the directory.
abbrev pub serving : (Bytes → Bytes → Option (Bytes × Bytes)) → Directory → Daemon
serving resolve dir = record {
  resolve = resolve;
  has_context = true;
  has_file = dir.has_file;
  patches = dir.patches;
}

-- The client has one error for a context without patches and one without the directory.
abbrev pub on_client : Result SolveError (Unit {0}) → Result SolveError (Unit {0})
on_client (ok u) = ok u
on_client (err (bad_spec e)) = err (bad_spec e)
on_client (err (unresolved r)) = err (unresolved r)
on_client (err (no_digest r)) = err (no_digest r)
on_client (err unreadable_context) = err unreadable_context
on_client (err (missing_file key name)) = err (missing_file key name)
on_client (err no_patches_dir) = err no_patch_files
on_client (err no_patch_files) = err no_patch_files
on_client (err (bad_graph e)) = err (bad_graph e)

on_client->> :
    (a b : Result SolveError (Unit {0})) → on_client (a >> b) ≡ (on_client a >> on_client b)
on_client->> (ok u) b = refl
on_client->> (err (bad_spec e)) b = refl
on_client->> (err (unresolved r)) b = refl
on_client->> (err (no_digest r)) b = refl
on_client->> (err unreadable_context) b = refl
on_client->> (err (missing_file key name)) b = refl
on_client->> (err no_patches_dir) b = refl
on_client->> (err no_patch_files) b = refl
on_client->> (err (bad_graph e)) b = refl

module _ (resolve : Bytes → Bytes → Option (Bytes × Bytes)) (dir : Directory) where
  check_dir_files-check_files :
      (fs : List (Bytes × Bytes))
      → check_dir_files dir fs ≡ on_client (check_files (serving resolve dir) fs)
  unfolding check_dir_files check_files
  check_dir_files-check_files [] = refl
  check_dir_files-check_files ((key, name) ∷ fs) = elim (Bool-cases (dir.has_file name)) [
    | inl e ↦ rw e (check_dir_files-check_files fs)
    | inr e ↦ rw e refl
  ]

  listed-on_client :
      (ps : Option (List Bytes))
      → (if globs_patch ps then ok tt else err no_patch_files) ≡ on_client (check_listed ps)
  listed-on_client none = refl
  listed-on_client (some names) = elim (Bool-cases (has_patch names)) [
    | inl e ↦ rw e refl
    | inr e ↦ rw e refl
  ]

  -- The check on the disk of the client gives the answer, the error included, that the check in the
  -- gateway gives on a daemon that serves this directory, except that a context without the directory
  -- of the patches has the error of one without patches in it.
  pub check_context_dir-check_context :
      (s : Spec) → check_context_dir dir s ≡ on_client (check_context (serving resolve dir) s)
  unfolding check_context_dir check_context check_patches
  check_context_dir-check_context s =
      ap (λ (r : Result SolveError (Unit {0})). r >> patches_checked)
        (check_dir_files-check_files (context_files s))
      ∙ by_files (check_files (serving resolve dir) (context_files s))
    where
      patches_checked : Result SolveError (Unit {0})
      patches_checked =
          if s.apply_patches
          then (if globs_patch dir.patches then ok tt else err no_patch_files)
          else ok tt

      patched :
          (b : Bool)
          → (if b then (if globs_patch dir.patches then ok tt else err no_patch_files) else ok tt)
            ≡ on_client (if b then check_listed dir.patches else ok tt)
      patched true = listed-on_client dir.patches
      patched false = refl

      by_files :
          (files : Result SolveError (Unit {0}))
          → (on_client files >> patches_checked)
            ≡ on_client (files >> (if s.apply_patches then check_listed dir.patches else ok tt))
      by_files files =
          ap (λ b. on_client files >> b) (patched s.apply_patches)
          ∙ sym (on_client->> files (if s.apply_patches then check_listed dir.patches else ok tt))
