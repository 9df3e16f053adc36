-- ===== src/Patch.antt =====
-- `patchFiles` and `applyPatches` (cmd/kbuild-step/main.go), over the files of the tree by their path.
-- gitdiff.Parse and gitdiff.Apply are parameters.
pub mod Meaning
pub mod Series
pub mod Untouched
use kernelbuild_buildkit.Common.{
  ℕ, ◌==◌, Bool, true, false, not, ◌&&◌, ◌||◌, List, [], ◌∷◌, ◌++◌, if◌then◌else◌, Option, none,
  some, Bytes, codes, beq, has_suffix, trim_prefix, member, split, join, map, ◌^◌, ◌%◌,
}
use kernelbuild_buildkit.Extract.Names.{dir_of}

-- A regular file: its text and the nine bits of its mode.
pub record File : Type 0 where
  pub text : Bytes
  pub perm : ℕ

-- The tree, as the calls of os.Root see it. A path is a file, a directory, or nothing.
pub record Tree : Type 0 where
  pub file : Bytes → Option File
  pub is_dir : Bytes → Bool

-- gitdiff.File. A mode of 0 is none.
pub record PatchFile : Type 0 where
  pub old_name : Bytes
  pub new_name : Bytes
  pub is_new : Bool
  pub is_delete : Bool
  pub is_rename : Bool
  pub new_mode : ℕ
  -- there is a text or a binary fragment
  pub has_hunks : Bool

pub data PatchError : Type 0 where
  no_patches : PatchError
  unreadable : Bytes → PatchError
  bad_patch : Bytes → PatchError
  bad_hunk : Bytes → PatchError
  no_file : Bytes → PatchError
  no_directory : Bytes → PatchError

-- An error leaves the tree as it is then.
pub record Applied : Type 0 where
  pub tree : Tree
  pub error : Option PatchError

abbrev pub Change : Type 0
Change = Tree → Applied

abbrev pub then_do : Option PatchError → Applied → Change → Applied
then_do none r q = q r.tree
then_do (some e) r q = r

-- `if err := p; err != nil { return err }`, and then `q`
infixl 5 ◌>>◌
abbrev pub ◌>>◌ : Change → Change → Change
◌>>◌ p q t = then_do (p t).error (p t) q

abbrev pub well : Change
well t = record { tree = t; error = none }

abbrev pub failing : PatchError → Change
failing e t = record { tree = t; error = some e }

abbrev pub Files : Type 0
Files = Bytes → Option File

unfoldable pub set_file : Bytes → Option File → Files → Files
unfolding beq
set_file name f files i = if beq name i then f else files i

abbrev pub with_files : Tree → Files → Tree
with_files t files = record t { file = files }

abbrev pub inits : List Bytes → List (List Bytes)
inits [] = []
inits (c ∷ cs) = (c ∷ []) ∷ map (λ l. c ∷ l) (inits cs)

-- A path and the directories above it.
unfoldable pub ancestors : Bytes → List Bytes
unfolding split join
ancestors path = map (join (codes "/")) (inits (split b'/' path))

abbrev pub some_file : Tree → List Bytes → Bool
some_file t [] = false
some_file t (p ∷ ps) = elim (t.file p) [ none ↦ some_file t ps | some f ↦ true ]

-- root.MkdirAll
unfoldable pub mkdir_all : Bytes → Change
unfolding ancestors member
mkdir_all path t =
    if some_file t (ancestors path)
    then failing (no_directory path) t
    else well (record t { is_dir = λ i. member i (ancestors path) || t.is_dir i })

-- A file that is there keeps its mode.
abbrev pub perm_or : Option File → ℕ → ℕ
perm_or none perm = perm
perm_or (some f) perm = f.perm

-- root.WriteFile
unfoldable pub write_file : Bytes → Bytes → ℕ → Change
unfolding dir_of set_file
write_file name text perm t =
    if t.is_dir name || not (t.is_dir (dir_of name))
    then failing (no_directory name) t
    else well (
        with_files t
          (set_file name (some (record { text = text; perm = perm_or (t.file name) perm })) t.file))

abbrev pub chmod_of : Bytes → ℕ → Tree → Option File → Applied
chmod_of name perm t none = failing (no_file name) t
chmod_of name perm t (some f) =
    well (with_files t (set_file name (some (record f { perm = perm })) t.file))

-- root.Chmod of a file
unfoldable pub chmod : Bytes → ℕ → Change
unfolding set_file
chmod name perm t = chmod_of name perm t (t.file name)

abbrev pub remove_of : Bytes → Tree → Option File → Applied
remove_of name t none = failing (no_file name) t
remove_of name t (some f) = well (with_files t (set_file name none t.file))

-- root.Remove of a file
unfoldable pub remove : Bytes → Change
unfolding set_file
remove name t = remove_of name t (t.file name)

-- The names without the prefixes of git.
abbrev pub old_path : PatchFile → Bytes
old_path f = trim_prefix (trim_prefix f.old_name (codes "a/")) (codes "b/")

abbrev pub new_path : PatchFile → Bytes
new_path f = trim_prefix (trim_prefix f.new_name (codes "b/")) (codes "a/")

-- `f.NewMode.Perm()`, where there is one.
unfoldable pub new_perm : ℕ → PatchFile → ℕ
new_perm perm f = if f.new_mode == 0 then perm else f.new_mode % 2 ^ 9

-- gitdiff.Parse, and gitdiff.Apply to a text.
pub record Git : Type 0 where
  pub parse : Bytes → Option (List PatchFile)
  pub apply : PatchFile → Bytes → Option Bytes

module _ (git : Git) where
  abbrev pub create_text : PatchFile → Option Bytes → Change
  create_text f none = failing (bad_hunk (new_path f))
  create_text f (some text) =
      mkdir_all (dir_of (new_path f))
      >> (write_file (new_path f) text (new_perm 0x1a4 f) >> chmod (new_path f) (new_perm 0x1a4 f))

  -- The mode of a new file is 0644 unless git has recorded one.
  unfoldable pub create_file : PatchFile → Change
  unfolding mkdir_all write_file chmod dir_of new_perm trim_prefix
  create_file f = create_text f (git.apply f [])

  -- A file without hunks keeps its text.
  abbrev pub new_text : PatchFile → Bytes → Option Bytes
  new_text f text = if f.has_hunks then git.apply f text else some text

  abbrev pub renames : PatchFile → Bool
  renames f = f.is_rename && not (beq (old_path f) (new_path f))

  abbrev pub change_text : PatchFile → ℕ → Option Bytes → Change
  change_text f perm none = failing (bad_hunk (old_path f))
  change_text f perm (some text) =
      (write_file (new_path f) text perm >> chmod (new_path f) perm)
      >> (if renames f then remove (old_path f) else well)

  abbrev pub change_old : PatchFile → Option File → Change
  change_old f none = failing (no_file (old_path f))
  change_old f (some old) = change_text f (new_perm old.perm f) (new_text f old.text)

  unfoldable pub change_file : PatchFile → Change
  unfolding write_file chmod remove new_perm trim_prefix beq
  change_file f t = change_old f (t.file (old_path f)) t

  -- The switch on a file of a patch.
  unfoldable pub apply_file : PatchFile → Change
  unfolding create_file change_file remove trim_prefix
  apply_file f =
      if f.is_new then create_file f else if f.is_delete then remove (old_path f) else change_file f

  unfoldable pub apply_files : List PatchFile → Change
  unfolding apply_file
  apply_files [] = well
  apply_files (f ∷ fs) = apply_file f >> apply_files fs

  abbrev pub apply_parsed : Bytes → Option (List PatchFile) → Change
  apply_parsed name none = failing (bad_patch name)
  apply_parsed name (some fs) = apply_files fs

  abbrev pub apply_raw : Bytes → Option Bytes → Change
  apply_raw name none = failing (unreadable name)
  apply_raw name (some raw) = apply_parsed name (git.parse raw)

  -- The loop over the patches; `read` is os.ReadFile.
  unfoldable pub apply_series : (Bytes → Option Bytes) → List Bytes → Change
  unfolding apply_files
  apply_series read [] = well
  apply_series read (name ∷ ns) = apply_raw name (read name) >> apply_series read ns

-- The names of a directory, in their order, that end in .patch.
unfoldable pub patch_names : List Bytes → List Bytes
unfolding has_suffix
patch_names [] = []
patch_names (name ∷ ns) =
    let rest = patch_names ns in if has_suffix name (codes ".patch") then name ∷ rest else rest

abbrev pub apply_named : Git → (Bytes → Option Bytes) → List Bytes → Change
apply_named git read [] = failing no_patches
apply_named git read (name ∷ ns) = apply_series git read (name ∷ ns)

-- `patchFiles` and `applyPatches`, of a directory with these names.
unfoldable pub apply_patches : Git → (Bytes → Option Bytes) → List Bytes → Change
unfolding patch_names apply_series
apply_patches git read dir = apply_named git read (patch_names dir)
