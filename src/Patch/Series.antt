-- ===== src/Patch/Series.antt =====
-- The series of patches as a whole: what `applyPatches` leaves when it ends without an error, and
-- what it never touches (cmd/kbuild-step/main.go).
use kernelbuild_buildkit.Common.{
  List, [], ◌∷◌, ◌++◌, Option, none, some, Bytes, ◌≡◌, ◌∙◌, refl, ap, sym, subst,
}
use kernelbuild_buildkit.Patch.{
  Tree, PatchFile, Applied, Change, Files, Git, apply_file, apply_files, apply_parsed, apply_raw,
  apply_series, apply_patches, apply_named, patch_names,
}
use kernelbuild_buildkit.Patch.Meaning.{meaning, apply_file-meaning, >>-well}

-- The files of all patches, in the order of the series; `none` where one is unreadable.
abbrev parsed_raw : Git → Option Bytes → Option (List PatchFile)
parsed_raw git none = none
parsed_raw git (some raw) = git.parse raw

abbrev before : Option (List PatchFile) → Option (List PatchFile) → Option (List PatchFile)
before none rest = none
before (some fs) none = none
before (some fs) (some gs) = some (fs ++ gs)

unfoldable pub series : Git → (Bytes → Option Bytes) → List Bytes → Option (List PatchFile)
series git read [] = some []
series git read (name ∷ ns) = before (parsed_raw git (read name)) (series git read ns)

abbrev pub and_then : Option Files → (Files → Option Files) → Option Files
and_then none k = none
and_then (some files) k = k files

-- The meaning of the files of a series, one after the other.
unfoldable pub meanings : Git → List PatchFile → Files → Option Files
unfolding meaning
meanings git [] files = some files
meanings git (f ∷ fs) files = and_then (meaning git f files) (meanings git fs)

meanings-append :
    (git : Git) (fs gs : List PatchFile) (files : Files)
    → meanings git (fs ++ gs) files ≡ and_then (meanings git fs files) (meanings git gs)
unfolding meanings
meanings-append git [] gs files = refl
meanings-append git (f ∷ fs) gs files = by_first (meaning git f files) (meanings-append git fs gs)
  where
    by_first :
        (o : Option Files)
        → ((next : Files)
            → meanings git (fs ++ gs) next ≡ and_then (meanings git fs next) (meanings git gs))
        → and_then o (meanings git (fs ++ gs))
          ≡ and_then (and_then o (meanings git fs)) (meanings git gs)
    by_first none rest = refl
    by_first (some next) rest = rest next

apply_files-meaning :
    (git : Git) (fs : List PatchFile) (t : Tree)
    → (apply_files git fs t).error ≡ none
    → meanings git fs t.file ≡ some (apply_files git fs t).tree.file
unfolding apply_files meanings
apply_files-meaning git [] t h = refl
apply_files-meaning git (f ∷ fs) t h =
    let (e, s) = >>-well (apply_file git f) (apply_files git fs) t h in
    let first : meaning git f t.file ≡ some (apply_file git f t).tree.file =
      apply_file-meaning git f t e in
    let ends : (apply_files git fs (apply_file git f t).tree).error ≡ none =
      subst (λ (r : Applied). r.error ≡ none) s h in
    ap (λ o. and_then o (meanings git fs)) first
    ∙ (apply_files-meaning git fs (apply_file git f t).tree ends
        ∙ ap (λ (r : Applied). some r.tree.file) (sym s))

-- What a run that ends without an error has done: all patches are read, and the files are what they mean.
abbrev Done : Git → (Bytes → Option Bytes) → List Bytes → Files → Files → Type 0
Done git read names old new =
    (fs : List PatchFile) × (series git read names ≡ some fs) × (meanings git fs old ≡ some new)

apply_raw-Done :
    (git : Git) (name : Bytes) (raw : Option Bytes) (t : Tree)
    → (apply_raw git name raw t).error ≡ none
    → (fs : List PatchFile) × (parsed_raw git raw ≡ some fs)
      × (meanings git fs t.file ≡ some (apply_raw git name raw t).tree.file)
apply_raw-Done git name none t h = cc
apply_raw-Done git name (some raw) t h = by_parse (git.parse raw) h
  where
    by_parse :
        (o : Option (List PatchFile))
        → (apply_parsed git name o t).error ≡ none
        → (fs : List PatchFile) × (o ≡ some fs)
          × (meanings git fs t.file ≡ some (apply_parsed git name o t).tree.file)
    by_parse none k = cc
    by_parse (some fs) k = (fs, refl, apply_files-meaning git fs t k)

apply_series-Done :
    (git : Git) (read : Bytes → Option Bytes) (names : List Bytes) (t : Tree)
    → (apply_series git read names t).error ≡ none
    → Done git read names t.file (apply_series git read names t).tree.file
unfolding apply_series series meanings
apply_series-Done git read [] t h = ([], refl, refl)
apply_series-Done git read (name ∷ ns) t h =
    let first : Change = apply_raw git name (read name) in
    let (e, s) = >>-well first (apply_series git read ns) t h in
    let ends : (apply_series git read ns (first t).tree).error ≡ none =
      subst (λ (r : Applied). r.error ≡ none) s h in
    let (fs, p, m) = apply_raw-Done git name (read name) t e in
    let (gs, q, n) = apply_series-Done git read ns (first t).tree ends in
    (
      fs ++ gs,
      ap (λ o. before o (series git read ns)) p ∙ ap (before (some fs)) q,
      meanings-append git fs gs t.file
          ∙ (ap (λ o. and_then o (meanings git gs)) m
              ∙ (n ∙ ap (λ (r : Applied). some r.tree.file) (sym s))),
    )

-- A run of `applyPatches` that ends without an error has found a patch, has parsed all of them, and
-- leaves as the files of the tree what the files of the series mean, one after the other in its order.
pub apply_patches-Done :
    (git : Git) (read : Bytes → Option Bytes) (dir : List Bytes) (t : Tree)
    → (apply_patches git read dir t).error ≡ none
    → (¬ (patch_names dir ≡ []))
      × Done git read (patch_names dir) t.file (apply_patches git read dir t).tree.file
unfolding apply_patches
apply_patches-Done git read dir t h = by_names (patch_names dir) h
  where
    by_names :
        (names : List Bytes)
        → (apply_named git read names t).error ≡ none
        → (¬ (names ≡ [])) × Done git read names t.file (apply_named git read names t).tree.file
    by_names [] k = cc
    by_names (name ∷ ns) k = (λ e. cc, apply_series-Done git read (name ∷ ns) t k)
