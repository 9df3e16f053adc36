-- ===== src/Step/Tree.antt =====
-- `prepareTree` and what it calls: the stamp, `nukeTree`, the seed, the extraction.
pub mod Laws
pub mod Stale
pub mod Fill
pub mod Crash
use kernelbuild_buildkit.Common.{
  Bool, true, false, not, ◌&&◌, ◌||◌, List, [], ◌∷◌, ◌++◌, if◌then◌else◌, Option, none, some, Bytes,
  codes, beq, is_empty, has_prefix, take,
}
use kernelbuild_buildkit.Seed.{SeedConfig}
use kernelbuild_buildkit.Step.Mount.{Mount, get, put, delete, names}
use kernelbuild_buildkit.Step.Run.{
  StepError, no_patches, unreadable_source, extract_failed, patch_failed, seed_pull_failed, Outcome,
  done, failed, M, ◌>>=◌, ◌>>◌, return, fail, read, change, write, remove,
}
use kernelbuild_buildkit.Step.Source.{Tarball, in_src, on_mount, acquire_source}
use kernelbuild_buildkit.Step.World.{World, Unpacked, Pulled, unreachable, no_such_key, stream}

abbrev pub stamp_name : Bytes
stamp_name = codes ".kbf-stamp"

abbrev pub seed_stamp_name : Bytes
seed_stamp_name = codes ".kbf-stamp.seed"

abbrev pub makefile_name : Bytes
makefile_name = codes "Makefile"

abbrev pub is_there : Option Bytes → Bool
is_there none = false
is_there (some f) = true

-- `treePresent`
abbrev pub tree_present : Mount → Bool
tree_present m = is_there (get makefile_name m)

-- `readStamp`
abbrev pub stamp_or_none : Option Bytes → Bytes
stamp_or_none none = codes "none"
stamp_or_none (some b) = b

abbrev pub read_stamp : Mount → Bytes
read_stamp m = stamp_or_none (get stamp_name m)

abbrev observe : {A : Type 0} → (Mount → A) → M A
observe f m = return (f m) m

-- Entries written one after the other, as a stream of a tarball is.
unfoldable pub write_all : List (Bytes × Bytes) → M (Unit {0})
write_all [] = return tt
write_all ((name, text) ∷ es) = do write name text; write_all es

-- The loop of `nukeTree` over the directory's entries.
unfoldable pub remove_all : List Bytes → M (Unit {0})
unfolding has_prefix
remove_all [] = return tt
remove_all (name ∷ ns) =
    let rest = remove_all ns in
    if has_prefix name (codes ".kbf-src") then rest else (do remove name; rest)

-- `nukeTree`
unfoldable pub nuke_tree : M (Unit {0})
unfolding remove_all names
nuke_tree m = remove_all (names m) m

-- `untarSeed` renames the stamp of the stream.
unfoldable pub quarantine : List (Bytes × Bytes) → List (Bytes × Bytes)
unfolding beq
quarantine [] = []
quarantine ((name, text) ∷ es) =
    (if beq name stamp_name then seed_stamp_name else name, text) ∷ quarantine es

abbrev pub text_or_empty : Option Bytes → Bytes
text_or_empty none = []
text_or_empty (some b) = b

abbrev pub found_bytes : Bytes → Option Bytes → M Bytes
found_bytes name none = fail (unreadable_source name)
found_bytes name (some body) = return body

-- The stamp, from the sum of the patches and the identity of the source; the sum fails first.
abbrev pub stamp_of : Outcome Bytes → Outcome Bytes → Outcome Bytes
stamp_of (failed e) id = failed e
stamp_of (done psha) (failed e) = failed e
stamp_of (done psha) (done id) = done (codes "src=" ++ (id ++ (codes " patches=" ++ psha)))

module _ (w : World) where
  unfoldable pub patches_sum : Outcome Bytes
  unfolding beq
  patches_sum =
      if beq w.env.apply_patches (codes "1")
      then elim (w.patch_series) [
        | none ↦ failed no_patches
        | some series ↦ done (take 16 (w.sha256_hex series))
      ]
      else done (codes "none")

  unfoldable pub source_identity : Outcome Bytes
  source_identity =
      if is_empty w.env.src_local then done w.env.src_id else elim (w.src_file w.env.src_local) [
        | none ↦ failed (unreadable_source w.env.src_local)
        | some body ↦ done (codes "local:" ++ w.sha256_hex body)
      ]

  -- `stampWant`
  unfoldable pub stamp_want : Outcome Bytes
  unfolding patches_sum source_identity
  stamp_want = stamp_of patches_sum source_identity

  -- The bytes of the tarball that `acquireSource` named.
  unfoldable pub tarball_bytes : Tarball → M Bytes
  tarball_bytes (in_src name) m = found_bytes name (w.src_file name) m
  tarball_bytes (on_mount name) m = found_bytes name (get name m) m

  abbrev tarball_name : Tarball → Bytes
  tarball_name (in_src name) = name
  tarball_name (on_mount name) = name

  unfoldable pub unpack_all : Unpacked → StepError → M (Unit {0})
  unfolding write_all
  unpack_all u e = do write_all u.entries; if u.complete then return tt else fail e

  -- `extractTarball`
  unfoldable pub extract_tarball : Tarball → M (Unit {0})
  unfolding tarball_bytes unpack_all
  extract_tarball src = do
    body ← tarball_bytes src
    unpack_all (w.unpack (tarball_name src) body) extract_failed

  unfoldable pub apply_patches : M (Unit {0})
  unfolding unpack_all
  apply_patches m = unpack_all (w.patched m) patch_failed m

  -- The pull of `seedPull` and `untarSeed`, with the cleaning of a stream that is cut short. The
  -- result says whether there was a seed.
  unfoldable pub pull_seed : Pulled → M Bool
  unfolding quarantine write_all nuke_tree
  pull_seed unreachable = fail seed_pull_failed
  pull_seed no_such_key = return false
  pull_seed (stream u) = do
    write_all (quarantine u.entries)
    if u.complete then return true else (do nuke_tree; fail seed_pull_failed)

  -- The comparison of the seed's stamp with the wanted one.
  unfoldable pub bless_seed : Bytes → M (Unit {0})
  unfolding beq nuke_tree
  bless_seed want = do
    seed_stamp ← read seed_stamp_name
    remove seed_stamp_name
    if beq (text_or_empty seed_stamp) want then write stamp_name want else nuke_tree

  unfoldable pub hydrate_seed : Bytes → M (Unit {0})
  unfolding pull_seed bless_seed
  hydrate_seed want = do found ← pull_seed w.pull_seed; if found then bless_seed want else return tt

  -- The tarball that was acquired for the replacement, or else now.
  unfoldable pub source_now : Option Tarball → M Tarball
  unfolding acquire_source
  source_now (some src) = return src
  source_now none = acquire_source w

  unfoldable pub extract_cold : Bytes → Option Tarball → M (Unit {0})
  unfolding source_now extract_tarball apply_patches beq
  extract_cold want src = do
    tarball ← source_now src
    extract_tarball tarball
    if beq w.env.apply_patches (codes "1") then apply_patches else return tt
    write stamp_name want

  -- A warm tree with another stamp: the replacement is proved before the tree goes.
  unfoldable pub discard_stale : Bytes → M (Option Tarball)
  unfolding acquire_source nuke_tree beq
  discard_stale want m =
      if tree_present m && not (beq (read_stamp m) want)
      then (do src ← acquire_source w; nuke_tree; return (some src)) m
      else return none m

  -- What is left of a tree without a Makefile is cleared.
  unfoldable pub clear_partial : M (Unit {0})
  unfolding nuke_tree
  clear_partial m = if tree_present m then return tt m else nuke_tree m

  unfoldable pub try_seed : Bytes → Option SeedConfig → M (Unit {0})
  unfolding hydrate_seed
  try_seed want none m = return tt m
  try_seed want (some seed) m = if tree_present m then return tt m else hydrate_seed want m

  unfoldable pub extract_if_absent : Bytes → Option Tarball → M (Unit {0})
  unfolding extract_cold
  extract_if_absent want src m = if tree_present m then return tt m else extract_cold want src m

  -- `prepareTree` behind its first line.
  unfoldable pub prepare_for : Bytes → Option SeedConfig → M (Unit {0})
  unfolding discard_stale clear_partial try_seed extract_if_absent
  prepare_for want seed = do
    src ← discard_stale want
    clear_partial
    try_seed want seed
    extract_if_absent want src

  -- `prepareTree` behind the stamp.
  abbrev pub prepare_with : Outcome Bytes → Option SeedConfig → M (Unit {0})
  prepare_with (failed e) seed = fail e
  prepare_with (done want) seed = prepare_for want seed

  -- `prepareTree`
  unfoldable pub prepare_tree : Option SeedConfig → M (Unit {0})
  unfolding stamp_want prepare_for
  prepare_tree seed = prepare_with stamp_want seed
