-- ===== src/Pack.antt =====
-- The archives that the runner packs (cmd/kbuild-step/main.go): the modules of `packModules` and the
-- tree of `seedPush`, over the files below a directory. The walks and reads succeed; the tar format
-- and the compression are left out.
pub mod Anonymous
pub mod Seed
use kernelbuild_buildkit.Common.{
  ℕ, Bool, true, false, not, ◌||◌, List, [], ◌∷◌, ◌++◌, map, Option, none, some, Bytes, codes,
  has_prefix, is_empty, if◌then◌else◌,
}
use kernelbuild_buildkit.Spec.Timestamp.{ℤ, pos, parse_int}

-- What FileInfo gives of an entry besides its kind.
pub record Info : Type 0 where
  pub perm : ℕ
  pub mtime : ℤ
  pub uid : ℕ
  pub gid : ℕ
  pub uname : Bytes
  pub gname : Bytes

-- The entries of a directory, in the order of their names: of each the name, the information, and the
-- text, the target or the entries; then the rest.
pub data Entries : Type 0 where
  nothing : Entries
  regular : Bytes → Info → Bytes → Entries → Entries
  symlink : Bytes → Info → Bytes → Entries → Entries
  directory : Bytes → Info → Entries → Entries → Entries

pub data Kind : Type 0 where
  regular_kind : Kind
  symlink_kind : Bytes → Kind
  directory_kind : Kind

-- A place of the walk: the path from the root, the name, and what stands there.
pub record Visit : Type 0 where
  pub path : Bytes
  pub base : Bytes
  pub kind : Kind
  pub info : Info
  pub text : Bytes

-- The path of an entry of a directory; the root has no path.
abbrev pub below : Option Bytes → Bytes → Bytes
below none name = name
below (some parent) name = parent ++ (b'/' ∷ name)

-- filepath.WalkDir: an entry before what stands below it.
unfoldable pub walk : Option Bytes → Entries → List Visit
walk parent nothing = []
walk parent (regular name info text rest) =
    record { path = below parent name; base = name; kind = regular_kind; info = info; text = text }
    ∷ walk parent rest
walk parent (symlink name info target rest) =
    record {
      path = below parent name;
      base = name;
      kind = symlink_kind target;
      info = info;
      text = [];
    }
    ∷ walk parent rest
walk parent (directory name info entries rest) =
    record { path = below parent name; base = name; kind = directory_kind; info = info; text = [] }
      ∷ walk (some (below parent name)) entries
    ++ walk parent rest

-- A header of the archive, with the text of a regular file.
pub record Member : Type 0 where
  pub name : Bytes
  pub kind : Kind
  pub info : Info
  pub text : Bytes

abbrev pub slash_for : Kind → Bytes
slash_for regular_kind = []
slash_for (symlink_kind target) = []
slash_for directory_kind = codes "/"

-- The time of the epoch, where it can be read.
abbrev pub clamp : Option ℤ → ℤ → ℤ
clamp none mtime = mtime
clamp (some epoch) mtime = epoch

-- The time is clamped to the epoch, and the owner is dropped.
unfoldable pub clamp_info : Bytes → Info → Info
unfolding parse_int
clamp_info epoch info = record {
  perm = info.perm;
  mtime = clamp (parse_int epoch) info.mtime;
  uid = 0;
  gid = 0;
  uname = [];
  gname = [];
}

unfoldable pub module_member : Bytes → Visit → Member
unfolding clamp_info
module_member epoch v = record {
  name = v.path ++ slash_for v.kind;
  kind = v.kind;
  info = clamp_info epoch v.info;
  text = v.text;
}

-- The archive of `packModules`, of the staged modules and SOURCE_DATE_EPOCH.
unfoldable pub modules_archive : Bytes → Entries → List Member
unfolding walk module_member
modules_archive epoch stage = map (module_member epoch) (walk none stage)

-- What the runner keeps beside the tree: seeds on their way, and downloaded sources.
unfoldable pub is_reserved : Bytes → Bool
unfolding has_prefix
is_reserved base = has_prefix base (codes ".kbf-seed-") || has_prefix base (codes ".kbf-src")

unfoldable pub seed_members : List Visit → List Member
unfolding is_reserved
seed_members [] = []
seed_members (v ∷ vs) =
    let rest = seed_members vs in
    if is_reserved v.base
    then rest
    else record { name = v.path; kind = v.kind; info = v.info; text = v.text } ∷ rest

-- The archive of `seedPush`.
unfoldable pub seed_archive : Entries → List Member
unfolding walk seed_members
seed_archive tree = seed_members (walk none tree)
