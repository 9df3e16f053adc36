-- ===== src/Extract/Names.antt =====
-- The names of the entries: filepath.Clean and filepath.Dir on slashes, and `stripComponents`.
pub mod Plain
use kernelbuild_buildkit.Common.{
  ℕ, ◌==◌, ltb, Bool, true, false, ◌&&◌, List, [], ◌∷◌, ◌++◌, if◌then◌else◌, Option, none, some,
  Bytes, codes, beq, is_empty, has_prefix, split, join, length, drop, reverse,
}

-- A component that goes up takes the one before it off, at the root none; in front it stays.
unfoldable pub go_up : Bool → List Bytes → List Bytes
unfolding beq
go_up rooted [] = if rooted then [] else codes ".." ∷ []
go_up rooted (c ∷ kept) = if beq c (codes "..") then codes ".." ∷ c ∷ kept else kept

-- The components that stay, the last one first.
unfoldable pub clean_parts : Bool → List Bytes → List Bytes → List Bytes
unfolding beq go_up
clean_parts rooted kept [] = kept
clean_parts rooted kept (c ∷ cs) =
    clean_parts rooted
      (if is_empty c
        then kept
        else if beq c (codes ".")
        then kept
        else if beq c (codes "..")
        then go_up rooted kept
        else c ∷ kept)
      cs

abbrev pub or_dot : Bytes → Bytes
or_dot [] = codes "."
or_dot (c ∷ s) = c ∷ s

-- filepath.Clean
unfoldable pub clean : Bytes → Bytes
unfolding has_prefix clean_parts split join
clean name =
    let rooted = has_prefix name (codes "/") in
    let rest = join (codes "/") (reverse (clean_parts rooted [] (split b'/' name))) in
    if rooted then b'/' ∷ rest else or_dot rest

abbrev pub non_empty : List Bytes → List Bytes
non_empty [] = []
non_empty (c ∷ cs) = if is_empty c then non_empty cs else c ∷ non_empty cs

-- filepath.Join: empty elements are left out, and no element at all gives the empty name.
abbrev pub clean_unless_empty : Bytes → Bytes
clean_unless_empty [] = []
clean_unless_empty (c ∷ s) = clean (c ∷ s)

unfoldable pub join_path : List Bytes → Bytes
unfolding clean join
join_path parts = clean_unless_empty (join (codes "/") (non_empty parts))

-- filepath.Dir: what stands up to the last slash, cleaned.
unfoldable pub dir_of : Bytes → Bytes
unfolding clean split join
dir_of name = clean (join (codes "/") (reverse ([] ∷ drop 1 (reverse (split b'/' name)))))

-- `stripComponents`
unfoldable pub strip_components : Bytes → ℕ → Option Bytes
unfolding clean split join_path
strip_components name strip =
    let parts = split b'/' (clean name) in
    if ltb strip (length parts) then some (join_path (drop strip parts)) else none
