-- ===== src/Patch/Meaning.antt =====
-- What a series of patches means for the files of the tree, and that `applyPatches` does it.
use kernelbuild_buildkit.Common.{
  trim_prefix, ℕ, Bool, true, false, not, ◌||◌, [], if◌then◌else◌, Option, none, some, Bytes, beq,
  beq_refl, ◌≡◌, ◌∙◌, refl, ap, sym, subst, fun_ext, arith, Bool-cases, inl, inr,
}
use kernelbuild_buildkit.Extract.Names.{dir_of}
use kernelbuild_buildkit.Patch.{
  File, Tree, PatchFile, Applied, Change, Files, Git, then_do, ◌>>◌, well, failing, with_files,
  set_file, mkdir_all, write_file, chmod, chmod_of, remove, remove_of, create_text, change_text,
  change_old, old_path, new_path, new_perm, create_file, new_text, renames, change_file, apply_file,
  perm_or, ancestors, some_file, PatchError, no_directory,
}

set_file-set_file :
    (n : Bytes) (f g : Option File) (s : Files) → set_file n f (set_file n g s) ≡ set_file n f s
unfolding set_file
set_file-set_file n f g s = fun_ext (λ i. ground arith)

set_file_self : (n : Bytes) (f : Option File) (s : Files) → set_file n f s n ≡ f
unfolding set_file
set_file_self n f s = rw beq_refl refl

-- A sequence that comes to its end: both parts do.
pub >>-well :
    (p q : Change) (t : Tree)
    → ((p >> q) t).error ≡ none
    → ((p t).error ≡ none) × ((p >> q) t ≡ q (p t).tree)
>>-well p q t h = by_error (p t).error refl h
  where
    by_error :
        (o : Option PatchError)
        → (p t).error ≡ o
        → (then_do o (p t) q).error ≡ none
        → ((p t).error ≡ none) × ((p >> q) t ≡ q (p t).tree)
    by_error none e k = (e, ap (λ o. then_do o (p t) q) e)
    by_error (some x) e k = cc

pub mkdir_all-file : (path : Bytes) (t : Tree) → (mkdir_all path t).tree.file ≡ t.file
unfolding mkdir_all
mkdir_all-file path t = elim (Bool-cases (some_file t (ancestors path))) [
  | inl e ↦ rw e refl
  | inr e ↦ rw e refl
]

write_file-well :
    (n text : Bytes) (perm : ℕ) (t : Tree)
    → (write_file n text perm t).error ≡ none
    → (write_file n text perm t).tree.file
      ≡ set_file n (some (record { text = text; perm = perm_or (t.file n) perm })) t.file
unfolding write_file
write_file-well n text perm t h = by_guard (t.is_dir n || not (t.is_dir (dir_of n))) h
  where
    put : Files
    put = set_file n (some (record { text = text; perm = perm_or (t.file n) perm })) t.file

    by_guard :
        (b : Bool)
        → (if b then failing (no_directory n) t else well (with_files t put)).error ≡ none
        → (if b then failing (no_directory n) t else well (with_files t put)).tree.file ≡ put
    by_guard true k = cc
    by_guard false k = refl

chmod-at :
    (n : Bytes) (perm : ℕ) (t : Tree) (f : File)
    → t.file n ≡ some f
    → chmod n perm t ≡ well (with_files t (set_file n (some (record f { perm = perm })) t.file))
unfolding chmod
chmod-at n perm t f e = ap (chmod_of n perm t) e

-- A file that is written and given its mode has both, whatever stood there before.
write_file-chmod :
    (n text : Bytes) (perm : ℕ) (t : Tree)
    → ((write_file n text perm >> chmod n perm) t).error ≡ none
    → ((write_file n text perm >> chmod n perm) t).tree.file
      ≡ set_file n (some (record { text = text; perm = perm })) t.file
write_file-chmod n text perm t h =
    let (e, s) = >>-well (write_file n text perm) (chmod n perm) t h in
    let put : Files =
      set_file n (some (record { text = text; perm = perm_or (t.file n) perm })) t.file in
    let w : (write_file n text perm t).tree.file ≡ put = write_file-well n text perm t e in
    let there : (write_file n text perm t).tree.file n
        ≡ some (record { text = text; perm = perm_or (t.file n) perm }) =
      ap (λ (g : Files). g n) w ∙ set_file_self n _ t.file in
    ap (λ r. r.tree.file) (s ∙ chmod-at n perm (write_file n text perm t).tree _ there)
    ∙ (ap (set_file n (some (record { text = text; perm = perm }))) w
        ∙ set_file-set_file n (some (record { text = text; perm = perm })) _ t.file)

remove-well :
    (n : Bytes) (t : Tree)
    → (remove n t).error ≡ none
    → ((remove n t).tree.file ≡ set_file n none t.file) × ((f : File) × (t.file n ≡ some f))
unfolding remove
remove-well n t h = by_file (t.file n) refl h
  where
    by_file :
        (o : Option File)
        → t.file n ≡ o
        → (remove_of n t o).error ≡ none
        → ((remove_of n t o).tree.file ≡ set_file n none t.file)
          × ((f : File) × (t.file n ≡ some f))
    by_file none e k = cc
    by_file (some f) e k = (refl, (f, e))

module _ (git : Git) where
  -- The meaning of a file of a patch: the files that it makes of those that there are; `none` where a
  -- hunk does not apply or the old file is missing.
  abbrev pub renamed : PatchFile → Files → Files
  renamed f files = if renames git f then set_file (old_path f) none files else files

  abbrev pub placed : PatchFile → ℕ → Option Bytes → Files → Option Files
  placed f perm none files = none
  placed f perm (some text) files =
      some (set_file (new_path f) (some (record { text = text; perm = perm })) files)

  abbrev pub renamed_in : PatchFile → Option Files → Option Files
  renamed_in f none = none
  renamed_in f (some files) = some (renamed f files)

  abbrev pub changed : PatchFile → Option File → Files → Option Files
  changed f none files = none
  changed f (some old) files =
      renamed_in f (placed f (new_perm old.perm f) (new_text git f old.text) files)

  abbrev pub deleted : PatchFile → Option File → Files → Option Files
  deleted f none files = none
  deleted f (some old) files = some (set_file (old_path f) none files)

  unfoldable pub meaning : PatchFile → Files → Option Files
  unfolding set_file trim_prefix new_perm beq
  meaning f files =
      if f.is_new
      then placed f (new_perm 0x1a4 f) (git.apply f []) files
      else if f.is_delete
      then deleted f (files (old_path f)) files
      else changed f (files (old_path f)) files

  create_file-meaning :
      (f : PatchFile) (t : Tree)
      → (create_file git f t).error ≡ none
      → placed f (new_perm 0x1a4 f) (git.apply f []) t.file ≡ some (create_file git f t).tree.file
  unfolding create_file
  create_file-meaning f t h = by_text (git.apply f []) h
    where
      by_text :
          (o : Option Bytes)
          → (create_text git f o t).error ≡ none
          → placed f (new_perm 0x1a4 f) o t.file ≡ some (create_text git f o t).tree.file
      by_text none k = cc
      by_text (some text) k =
          let perm = new_perm 0x1a4 f in
          let make : Change = mkdir_all (dir_of (new_path f)) in
          let put : Change = write_file (new_path f) text perm >> chmod (new_path f) perm in
          let (_, s) = >>-well make put t k in
          let ends : (put (make t).tree).error ≡ none =
            subst (λ (r : Applied). r.error ≡ none) s k in
          ap some (
            sym (
              ap (λ (r : Applied). r.tree.file) s
              ∙ (write_file-chmod (new_path f) text perm (make t).tree ends
                  ∙ ap (set_file (new_path f) (some (record { text = text; perm = perm })))
                      (mkdir_all-file (dir_of (new_path f)) t))))

  change_file-meaning :
      (f : PatchFile) (t : Tree)
      → (change_file git f t).error ≡ none
      → changed f (t.file (old_path f)) t.file ≡ some (change_file git f t).tree.file
  unfolding change_file
  change_file-meaning f t h = by_old (t.file (old_path f)) h
    where
      drop_old : Bool → Files → Files
      drop_old b files = if b then set_file (old_path f) none files else files

      by_rename :
          (b : Bool) (u : Tree)
          → ((if b then remove (old_path f) else well) u).error ≡ none
          → ((if b then remove (old_path f) else well) u).tree.file ≡ drop_old b u.file
      by_rename true u k = (remove-well (old_path f) u k).0
      by_rename false u k = refl

      by_text :
          (perm : ℕ) (o : Option Bytes)
          → (change_text git f perm o t).error ≡ none
          → renamed_in f (placed f perm o t.file) ≡ some (change_text git f perm o t).tree.file
      by_text perm none k = cc
      by_text perm (some text) k =
          let put : Change = write_file (new_path f) text perm >> chmod (new_path f) perm in
          let after : Change = if renames git f then remove (old_path f) else well in
          let (e, s) = >>-well put after t k in
          let ends : (after (put t).tree).error ≡ none =
            subst (λ (r : Applied). r.error ≡ none) s k in
          ap some (
            sym (
              ap (λ (r : Applied). r.tree.file) s
              ∙ (by_rename (renames git f) (put t).tree ends
                  ∙ ap (drop_old (renames git f)) (write_file-chmod (new_path f) text perm t e))))

      by_old :
          (o : Option File)
          → (change_old git f o t).error ≡ none
          → changed f o t.file ≡ some (change_old git f o t).tree.file
      by_old none k = cc
      by_old (some old) k = by_text (new_perm old.perm f) (new_text git f old.text) k

  pub apply_file-meaning :
      (f : PatchFile) (t : Tree)
      → (apply_file git f t).error ≡ none
      → meaning f t.file ≡ some (apply_file git f t).tree.file
  unfolding apply_file meaning
  apply_file-meaning f t h = by_kind f.is_new f.is_delete h
    where
      applied_as : Bool → Bool → Applied
      applied_as n d =
          (if n then create_file git f else if d then remove (old_path f) else change_file git f) t

      meant_as : Bool → Bool → Option Files
      meant_as n d =
          if n
          then placed f (new_perm 0x1a4 f) (git.apply f []) t.file
          else if d
          then deleted f (t.file (old_path f)) t.file
          else changed f (t.file (old_path f)) t.file

      by_kind :
          (n d : Bool)
          → (applied_as n d).error ≡ none
          → meant_as n d ≡ some (applied_as n d).tree.file
      by_kind true d k = create_file-meaning f t k
      by_kind false true k =
          let (files, (old, there)) = remove-well (old_path f) t k in
          ap (λ o. deleted f o t.file) there ∙ ap some (sym files)
      by_kind false false k = change_file-meaning f t k
