-- ===== src/Patch/Untouched.antt =====
-- What a run of `applyPatches` never touches (cmd/kbuild-step/main.go).
use kernelbuild_buildkit.Common.{
  ℕ, Bool, true, false, not, ◌||◌, List, [], ◌∷◌, if◌then◌else◌, Option, none, some, Bytes, beq,
  ◌≡◌, ◌∙◌, refl, ap, arith, Bool-cases, inl, inr, trim_prefix,
}
use kernelbuild_buildkit.Extract.Names.{dir_of}
use kernelbuild_buildkit.Patch.{
  File, Tree, PatchFile, Change, Files, Git, ◌>>◌, then_do, well, failing, set_file, mkdir_all,
  write_file, chmod, remove, remove_of, chmod_of, create_text, change_text, change_old, create_file,
  change_file, old_path, new_path, new_perm, new_text, renames, apply_file, apply_files,
  apply_parsed, apply_raw, apply_series, apply_patches, apply_named, patch_names, PatchError,
}
use kernelbuild_buildkit.Patch.Meaning.{mkdir_all-file}

-- The names that a file of a patch gives.
unfoldable pub touches : Bytes → PatchFile → Bool
unfolding beq trim_prefix
touches i f = beq (old_path f) i || beq (new_path f) i

unfoldable pub touches_any : Bytes → List PatchFile → Bool
unfolding touches
touches_any i [] = false
touches_any i (f ∷ fs) = touches i f || touches_any i fs

abbrev touched_raw : Git → Bytes → Option Bytes → Bool
touched_raw git i none = false
touched_raw git i (some raw) = elim (git.parse raw) [ none ↦ false | some fs ↦ touches_any i fs ]

-- Some patch of the series names the path.
unfoldable pub touched : Git → (Bytes → Option Bytes) → Bytes → List Bytes → Bool
unfolding touches_any
touched git read i [] = false
touched git read i (name ∷ ns) = touched_raw git i (read name) || touched git read i ns

-- A change keeps the file at a path, whether it ends well or not.
record Keeps (i : Bytes) (p : Change) : Type 0 where
  at : (t : Tree) → (p t).tree.file i ≡ t.file i

well-Keeps : (i : Bytes) → Keeps i well
well-Keeps i = record { at = λ t. refl }

failing-Keeps : (i : Bytes) (e : PatchError) → Keeps i (failing e)
failing-Keeps i e = record { at = λ t. refl }

>>-Keeps : (i : Bytes) (p q : Change) → Keeps i p → Keeps i q → Keeps i (p >> q)
>>-Keeps i p q a b = record { at = λ t. by_error (p t).error t }
  where
    by_error : (o : Option PatchError) (t : Tree) → (then_do o (p t) q).tree.file i ≡ t.file i
    by_error none t = b.at (p t).tree ∙ a.at t
    by_error (some e) t = a.at t

set_file-other :
    (n i : Bytes) (f : Option File) (s : Files) → beq n i ≡ false → set_file n f s i ≡ s i
unfolding set_file
set_file-other n i f s h = rw h refl

mkdir_all-Keeps : (i path : Bytes) → Keeps i (mkdir_all path)
mkdir_all-Keeps i path = record { at = λ t. ap (λ (g : Files). g i) (mkdir_all-file path t) }

write_file-Keeps :
    (i n text : Bytes) (perm : ℕ) → beq n i ≡ false → Keeps i (write_file n text perm)
unfolding write_file
write_file-Keeps i n text perm h = record {
  at = λ t. elim (Bool-cases (t.is_dir n || not (t.is_dir (dir_of n)))) [
    | inl e ↦ rw e refl
    | inr e ↦ rw e (set_file-other n i _ t.file h)
  ];
}

chmod-Keeps : (i n : Bytes) (perm : ℕ) → beq n i ≡ false → Keeps i (chmod n perm)
unfolding chmod
chmod-Keeps i n perm h = record { at = λ t. by_file t (t.file n) }
  where
    by_file : (t : Tree) (o : Option File) → (chmod_of n perm t o).tree.file i ≡ t.file i
    by_file t none = refl
    by_file t (some f) = set_file-other n i _ t.file h

remove-Keeps : (i n : Bytes) → beq n i ≡ false → Keeps i (remove n)
unfolding remove
remove-Keeps i n h = record { at = λ t. by_file t (t.file n) }
  where
    by_file : (t : Tree) (o : Option File) → (remove_of n t o).tree.file i ≡ t.file i
    by_file t none = refl
    by_file t (some f) = set_file-other n i none t.file h

put-Keeps :
    (i n text : Bytes) (perm : ℕ)
    → beq n i ≡ false
    → Keeps i (write_file n text perm >> chmod n perm)
put-Keeps i n text perm h =
    >>-Keeps i _ _ (write_file-Keeps i n text perm h) (chmod-Keeps i n perm h)

create_file-Keeps :
    (git : Git) (i : Bytes) (f : PatchFile)
    → beq (new_path f) i ≡ false
    → Keeps i (create_file git f)
unfolding create_file
create_file-Keeps git i f h = by_text (git.apply f [])
  where
    by_text : (o : Option Bytes) → Keeps i (create_text git f o)
    by_text none = failing-Keeps i _
    by_text (some text) =
        >>-Keeps i _ _ (mkdir_all-Keeps i (dir_of (new_path f)))
          (put-Keeps i (new_path f) text (new_perm 0x1a4 f) h)

change_file-Keeps :
    (git : Git) (i : Bytes) (f : PatchFile)
    → beq (old_path f) i ≡ false
    → beq (new_path f) i ≡ false
    → Keeps i (change_file git f)
unfolding change_file
change_file-Keeps git i f h k = record { at = λ t. (by_old (t.file (old_path f))).at t }
  where
    by_rename : (b : Bool) → Keeps i (if b then remove (old_path f) else well)
    by_rename true = remove-Keeps i (old_path f) h
    by_rename false = well-Keeps i

    by_text : (perm : ℕ) (o : Option Bytes) → Keeps i (change_text git f perm o)
    by_text perm none = failing-Keeps i _
    by_text perm (some text) =
        >>-Keeps i _ _ (put-Keeps i (new_path f) text perm k) (by_rename (renames git f))

    by_old : (o : Option File) → Keeps i (change_old git f o)
    by_old none = failing-Keeps i _
    by_old (some old) = by_text (new_perm old.perm f) (new_text git f old.text)

apply_file-Keeps :
    (git : Git) (i : Bytes) (f : PatchFile) → touches i f ≡ false → Keeps i (apply_file git f)
unfolding apply_file touches
apply_file-Keeps git i f h = by_kind f.is_new f.is_delete
  where
    old : beq (old_path f) i ≡ false
    old = ground arith

    new : beq (new_path f) i ≡ false
    new = ground arith

    by_kind :
        (n d : Bool)
        → Keeps i
            (if n then create_file git f else if d then remove (old_path f) else change_file git f)
    by_kind true d = create_file-Keeps git i f new
    by_kind false true = remove-Keeps i (old_path f) old
    by_kind false false = change_file-Keeps git i f old new

||-false : (a b : Bool) → (a || b) ≡ false → (a ≡ false) × (b ≡ false)
||-false true b h = cc
||-false false b h = (refl, h)

apply_files-Keeps :
    (git : Git) (i : Bytes) (fs : List PatchFile)
    → touches_any i fs ≡ false
    → Keeps i (apply_files git fs)
unfolding apply_files touches_any
apply_files-Keeps git i [] h = well-Keeps i
apply_files-Keeps git i (f ∷ fs) h =
    let (a, b) = ||-false (touches i f) (touches_any i fs) h in
    >>-Keeps i _ _ (apply_file-Keeps git i f a) (apply_files-Keeps git i fs b)

apply_raw-Keeps :
    (git : Git) (i name : Bytes) (o : Option Bytes)
    → touched_raw git i o ≡ false
    → Keeps i (apply_raw git name o)
apply_raw-Keeps git i name none h = failing-Keeps i _
apply_raw-Keeps git i name (some raw) h = by_parse (git.parse raw) h
  where
    by_parse :
        (o : Option (List PatchFile))
        → elim o [ none ↦ false | some fs ↦ touches_any i fs ] ≡ false
        → Keeps i (apply_parsed git name o)
    by_parse none k = failing-Keeps i _
    by_parse (some fs) k = apply_files-Keeps git i fs k

apply_series-Keeps :
    (git : Git) (read : Bytes → Option Bytes) (i : Bytes) (names : List Bytes)
    → touched git read i names ≡ false
    → Keeps i (apply_series git read names)
unfolding apply_series touched
apply_series-Keeps git read i [] h = well-Keeps i
apply_series-Keeps git read i (name ∷ ns) h =
    let (a, b) = ||-false (touched_raw git i (read name)) (touched git read i ns) h in
    >>-Keeps i _ _ (apply_raw-Keeps git i name (read name) a) (apply_series-Keeps git read i ns b)

-- A file at a path that no file of a readable patch names, under its old name or its new one, is after
-- a run of `applyPatches` what it was before, also where the run ends with an error.
pub apply_patches-untouched :
    (git : Git) (read : Bytes → Option Bytes) (dir : List Bytes) (t : Tree) (i : Bytes)
    → touched git read i (patch_names dir) ≡ false
    → (apply_patches git read dir t).tree.file i ≡ t.file i
unfolding apply_patches
apply_patches-untouched git read dir t i h = by_names (patch_names dir) h
  where
    by_names :
        (names : List Bytes)
        → touched git read i names ≡ false
        → (apply_named git read names t).tree.file i ≡ t.file i
    by_names [] k = refl
    by_names (name ∷ ns) k = (apply_series-Keeps git read i (name ∷ ns) k).at t
