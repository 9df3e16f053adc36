-- ===== src/Tests/Patches.antt =====
-- `applyPatches` at a concrete tree and a concrete series.
use kernelbuild_buildkit.Common.{
  true, false, List, [], ◌∷◌, ◌++◌, Option, none, some, Bytes, codes, beq, ◌≡◌, refl, if◌then◌else◌,
}
use kernelbuild_buildkit.Patch.{
  File, Tree, PatchFile, Git, Files, apply_patches, patch_names, no_directory,
}
use kernelbuild_buildkit.Patch.Series.{apply_patches-Done, series, meanings}
use kernelbuild_buildkit.Patch.Untouched.{touched, apply_patches-untouched}

abbrev text_file : Bytes → File
text_file text = record { text = text; perm = 0x1a4 }

abbrev two_files : Files
two_files i =
    if beq i (codes "Makefile")
    then some (text_file (codes "all:"))
    else if beq i (codes "README")
    then some (text_file (codes "read me"))
    else none

abbrev checkout : Tree
checkout = record { file = two_files; is_dir = beq (codes ".") }

abbrev new_script : PatchFile
new_script = record {
  old_name = [];
  new_name = codes "b/tools/run.sh";
  is_new = true;
  is_delete = false;
  is_rename = false;
  new_mode = 0x1ed;
  has_hunks = true;
}

abbrev changed_makefile : PatchFile
changed_makefile = record {
  old_name = codes "a/Makefile";
  new_name = codes "b/Makefile";
  is_new = false;
  is_delete = false;
  is_rename = false;
  new_mode = 0;
  has_hunks = true;
}

abbrev renamed_to : Bytes → PatchFile
renamed_to name = record {
  old_name = codes "a/Makefile";
  new_name = codes "b/" ++ name;
  is_new = false;
  is_delete = false;
  is_rename = true;
  new_mode = 0;
  has_hunks = false;
}

-- A hunk adds a line at the end.
abbrev adding_git : Git
adding_git = record {
  parse = λ raw.
      if beq raw (codes "1")
      then some (new_script ∷ changed_makefile ∷ [])
      else if beq raw (codes "2")
      then some (renamed_to (codes "Kbuild") ∷ [])
      else if beq raw (codes "3")
      then some (renamed_to (codes "tools/Kbuild") ∷ [])
      else none;
  apply = λ f text. some (text ++ codes "+");
}

abbrev patch_texts : Bytes → Option Bytes
patch_texts name =
    if beq name (codes "1.patch")
    then some (codes "1")
    else if beq name (codes "2.patch")
    then some (codes "2")
    else if beq name (codes "3.patch")
    then some (codes "3")
    else none

abbrev patches_dir : List Bytes
patches_dir = codes "1.patch" ∷ codes "2.patch" ∷ codes "notes" ∷ []

two_patches : (apply_patches adding_git patch_texts patches_dir checkout).error ≡ none
unfolding apply_patches
two_patches = refl

kbuild_text :
    (apply_patches adding_git patch_texts patches_dir checkout).tree.file (codes "Kbuild")
    ≡ some (text_file (codes "all:+"))
unfolding apply_patches
kbuild_text = refl

script_mode :
    (apply_patches adding_git patch_texts patches_dir checkout).tree.file (codes "tools/run.sh")
    ≡ some (record { text = codes "+"; perm = 0x1ed })
unfolding apply_patches
script_mode = refl

makefile_gone :
    (apply_patches adding_git patch_texts patches_dir checkout).tree.file (codes "Makefile") ≡ none
unfolding apply_patches
makefile_gone = refl

-- A rename does not make the directory of the new name.
rename_into_new_directory :
    (apply_patches adding_git patch_texts (codes "3.patch" ∷ []) checkout).error
    ≡ some (no_directory (codes "tools/Kbuild"))
unfolding apply_patches
rename_into_new_directory = refl

apply_patches-Done_example :
    (¬ (patch_names patches_dir ≡ []))
    × ((fs : List PatchFile) × (series adding_git patch_texts (patch_names patches_dir) ≡ some fs)
        × (meanings adding_git fs two_files
            ≡ some (apply_patches adding_git patch_texts patches_dir checkout).tree.file))
apply_patches-Done_example =
    apply_patches-Done adding_git patch_texts patches_dir checkout two_patches

readme_unnamed : touched adding_git patch_texts (codes "README") (patch_names patches_dir) ≡ false
unfolding touched patch_names
readme_unnamed = refl

apply_patches-untouched_example :
    (apply_patches adding_git patch_texts patches_dir checkout).tree.file (codes "README")
    ≡ some (text_file (codes "read me"))
unfolding beq
apply_patches-untouched_example =
    apply_patches-untouched adding_git patch_texts patches_dir checkout (codes "README")
      readme_unnamed
