-- ===== src/Kconfigs/Listing.antt =====
-- Which files `bundleKconfigs` collects (cmd/kbuild-step/expect.go).
use kernelbuild_buildkit.Common.{
  ℕ, ◌==◌, Bool, true, false, not, List, [], ◌∷◌, ◌++◌, none, some, Bytes, beq, member,
  if◌then◌else◌, every, ◌≡◌, refl, sym, arith, Bool-cases, inl, inr,
}
use kernelbuild_buildkit.Kconfigs.{is_skipped, is_kconfig, kconfig_names, skipped_dirs}
use kernelbuild_buildkit.Pack.{
  Entries, nothing, regular, symlink, directory, Kind, regular_kind, symlink_kind, directory_kind,
  Visit, walk, below,
}

-- The tree without the directories at its root that are passed by.
unfoldable pub without_skipped : Entries → Entries
unfolding is_skipped
without_skipped nothing = nothing
without_skipped (regular name info text rest) = regular name info text (without_skipped rest)
without_skipped (symlink name info target rest) = symlink name info target (without_skipped rest)
without_skipped (directory name info entries rest) =
    let kept = without_skipped rest in
    if is_skipped name then kept else directory name info entries kept

abbrev pub is_kconfig_file : Kind → Bytes → Bool
is_kconfig_file directory_kind base = false
is_kconfig_file regular_kind base = is_kconfig base
is_kconfig_file (symlink_kind target) base = is_kconfig base

-- The paths of the files of a walk whose names begin with Kconfig.
unfoldable pub kconfig_paths : List Visit → List Bytes
unfolding is_kconfig
kconfig_paths [] = []
kconfig_paths (v ∷ vs) =
    let paths = kconfig_paths vs in if is_kconfig_file v.kind v.base then v.path ∷ paths else paths

kconfig_paths-append :
    (vs ws : List Visit) → kconfig_paths (vs ++ ws) ≡ kconfig_paths vs ++ kconfig_paths ws
unfolding kconfig_paths
kconfig_paths-append [] ws = refl
kconfig_paths-append (v ∷ vs) ws = elim (Bool-cases (is_kconfig_file v.kind v.base)) [
  | inl e ↦ rw (e, kconfig_paths-append vs ws) refl
  | inr e ↦ rw (e, kconfig_paths-append vs ws) refl
]

abbrev no_slash : ℕ → Bool
no_slash c = not (c == b'/')

-- A path with a slash is none of the directories that are passed by.
beq-slash : (t s name : Bytes) → every no_slash t ≡ true → beq t (s ++ (b'/' ∷ name)) ≡ false
unfolding beq
beq-slash [] [] name h = refl
beq-slash (c ∷ t) [] name h = ground arith
beq-slash [] (a ∷ s) name h = refl
beq-slash (c ∷ t) (a ∷ s) name h = ground (arith, beq-slash t s name)

member-slash :
    (s name : Bytes) (ts : List Bytes)
    → every (λ t. every no_slash t) ts ≡ true
    → member (s ++ (b'/' ∷ name)) ts ≡ false
unfolding member
member-slash s name [] h = refl
member-slash s name (t ∷ ts) h = elim (Bool-cases (every no_slash t)) [
  | inl e ↦ rw (beq-slash t s name e) (member-slash s name ts (ground arith))
  | inr e ↦ ground arith
]

is_skipped-below : (parent name : Bytes) → is_skipped (below (some parent) name) ≡ false
unfolding is_skipped
is_skipped-below parent name = member-slash parent name skipped_dirs refl

kconfig_names-below :
    (parent : Bytes) (entries : Entries)
    → kconfig_names (some parent) entries ≡ kconfig_paths (walk (some parent) entries)
unfolding kconfig_names kconfig_paths walk
kconfig_names-below parent nothing = refl
kconfig_names-below parent (regular name info text rest) = rw (kconfig_names-below parent rest) refl
kconfig_names-below parent (symlink name info target rest) =
    rw (kconfig_names-below parent rest) refl
kconfig_names-below parent (directory name info entries rest) =
    rw
      (
        is_skipped-below parent name,
        kconfig_names-below (below (some parent) name) entries,
        kconfig_names-below parent rest,
      )
      (sym (
        kconfig_paths-append (walk (some (below (some parent) name)) entries)
          (walk (some parent) rest)))

-- The names that are collected are, in the order of the walk, the paths of the files, at any depth,
-- whose names begin with Kconfig, in the tree without the directories at its root that are passed by.
pub kconfig_names-kconfig_paths :
    (tree : Entries) → kconfig_names none tree ≡ kconfig_paths (walk none (without_skipped tree))
unfolding kconfig_names kconfig_paths walk without_skipped
kconfig_names-kconfig_paths nothing = refl
kconfig_names-kconfig_paths (regular name info text rest) =
    rw (kconfig_names-kconfig_paths rest) refl
kconfig_names-kconfig_paths (symlink name info target rest) =
    rw (kconfig_names-kconfig_paths rest) refl
kconfig_names-kconfig_paths (directory name info entries rest) =
    elim (Bool-cases (is_skipped name)) [
      | inl e ↦ rw e (kconfig_names-kconfig_paths rest)
      | inr e ↦
          rw (e, kconfig_names-below name entries, kconfig_names-kconfig_paths rest)
            (sym
              (kconfig_paths-append (walk (some name) entries) (walk none (without_skipped rest))))
    ]
