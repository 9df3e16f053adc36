-- ===== src/Kconfigs.antt =====
-- `bundleKconfigs` (cmd/kbuild-step/expect.go), over the files below the root of the tree. The gzip
-- format, and the errors of the file that is written, are left out.
pub mod Listing
pub mod Order
use kernelbuild_buildkit.Common.{
  ℕ, ltb, ◌==◌, Bool, true, false, ◌&&◌, ◌||◌, List, [], ◌∷◌, ◌++◌, Option, none, some, Bytes,
  codes, has_prefix, member, if◌then◌else◌,
}
use kernelbuild_buildkit.Pack.{Entries, nothing, regular, symlink, directory, below}

-- The directories at the root that the walk passes by.
abbrev pub skipped_dirs : List Bytes
skipped_dirs =
    codes ".git" ∷ codes "Documentation" ∷ codes "tools" ∷ codes "samples" ∷ codes "scripts" ∷ []

unfoldable pub is_skipped : Bytes → Bool
unfolding member
is_skipped path = member path skipped_dirs

unfoldable pub is_kconfig : Bytes → Bool
unfolding has_prefix
is_kconfig base = has_prefix base (codes "Kconfig")

-- The names that the walk collects.
unfoldable pub kconfig_names : Option Bytes → Entries → List Bytes
unfolding is_skipped is_kconfig
kconfig_names parent nothing = []
kconfig_names parent (regular name info text rest) =
    let names = kconfig_names parent rest in
    if is_kconfig name then below parent name ∷ names else names
kconfig_names parent (symlink name info target rest) =
    let names = kconfig_names parent rest in
    if is_kconfig name then below parent name ∷ names else names
kconfig_names parent (directory name info entries rest) =
    let names = kconfig_names parent rest in
    let inner = kconfig_names (some (below parent name)) entries in
    if is_skipped (below parent name) then names else inner ++ names

-- The order of strings, byte by byte.
unfoldable pub text_leb : Bytes → Bytes → Bool
text_leb [] t = true
text_leb (a ∷ s) [] = false
text_leb (a ∷ s) (b ∷ t) = ltb a b || (a == b && text_leb s t)

unfoldable pub insert : Bytes → List Bytes → List Bytes
unfolding text_leb
insert x [] = x ∷ []
insert x (y ∷ ys) = let rest = insert x ys in if text_leb x y then x ∷ (y ∷ ys) else y ∷ rest

-- sort.Strings
unfoldable pub sort_strings : List Bytes → List Bytes
unfolding insert
sort_strings [] = []
sort_strings (x ∷ xs) = insert x (sort_strings xs)

abbrev pub section : Bytes → Option Bytes → Option Bytes → Option Bytes
section name none rest = none
section name (some text) none = none
section name (some text) (some rest) =
    some (codes "### " ++ (name ++ (codes "\n" ++ (text ++ rest))))

-- The text of the bundle, before it is compressed; `read` is what os.Open and io.Copy give of a path.
unfoldable pub sections : (Bytes → Option Bytes) → List Bytes → Option Bytes
sections read [] = some []
sections read (name ∷ names) = section name (read name) (sections read names)

unfoldable pub bundle_text : (Bytes → Option Bytes) → Entries → Option Bytes
unfolding kconfig_names sort_strings sections
bundle_text read tree = sections read (sort_strings (kconfig_names none tree))
