-- ===== src/Tests/Packed.antt =====
-- The archives and the bundle of the Kconfig files at concrete trees.
use mathlib.Core.List.{Permᴰ}
use kernelbuild_buildkit.Common.{
  ℕ, true, List, [], ◌∷◌, map, Option, none, some, Bytes, codes, ◌≡◌, refl, beq, if◌then◌else◌,
}
use kernelbuild_buildkit.Spec.Timestamp.{pos, parse_int}
use kernelbuild_buildkit.Pack.{
  Info, Entries, nothing, regular, symlink, directory, walk, Member, modules_archive, seed_archive,
}
use kernelbuild_buildkit.Pack.Anonymous.{anonymous, modules_archive-anonymous}
use kernelbuild_buildkit.Pack.Seed.{members, seed_archive-members}
use kernelbuild_buildkit.Kconfigs.{bundle_text}
use kernelbuild_buildkit.Kconfigs.Listing.{without_skipped, kconfig_paths}
use kernelbuild_buildkit.Kconfigs.Order.{is_ascending, IsBundle, bundle_text-IsBundle}

abbrev info_of : ℕ → Info
info_of time = record {
  perm = 0x1a4;
  mtime = pos time;
  uid = time;
  gid = 0;
  uname = codes "root";
  gname = [];
}

abbrev staged : ℕ → Entries
staged time =
    directory (codes "lib") (info_of time)
      (regular (codes "a.ko") (info_of time) (codes "ELF")
        (symlink (codes "build") (info_of time) (codes "/build") nothing))
      nothing

same_stage : anonymous (staged 5) ≡ anonymous (staged 7)
unfolding anonymous
same_stage = refl

epoch_reads : parse_int (codes "1700000000") ≡ some (pos 1700000000)
unfolding parse_int
epoch_reads = refl

modules_archive-anonymous_example :
    modules_archive (codes "1700000000") (staged 5)
    ≡ modules_archive (codes "1700000000") (staged 7)
modules_archive-anonymous_example =
    modules_archive-anonymous (codes "1700000000") (pos 1700000000) (staged 5) (staged 7)
      epoch_reads same_stage

abbrev member_names : List Member → List Bytes
member_names ms = map (λ (m : Member). m.name) ms

modules_names :
    member_names (modules_archive (codes "0") (staged 5))
    ≡ codes "lib/" ∷ codes "lib/a.ko" ∷ codes "lib/build" ∷ []
unfolding modules_archive
modules_names = refl

-- Without an epoch the times stay, and two stages are two archives.
times_stay :
    map (λ (m : Member). m.info.mtime) (modules_archive [] (staged 5)) ≡ pos 5 ∷ pos 5 ∷ pos 5 ∷ []
unfolding modules_archive
times_stay = refl

abbrev mount_with : Bytes → Entries
mount_with part =
    regular (codes ".kbf-seed-1.tmp") (info_of 1) part
      (regular (codes "Makefile") (info_of 1) (codes "all:") nothing)

seed_names : member_names (seed_archive (mount_with (codes "zstd"))) ≡ codes "Makefile" ∷ []
unfolding seed_archive
seed_names = refl

seed_archive-members_example :
    seed_archive (mount_with (codes "zstd")) ≡ members none (mount_with (codes "zstd"))
seed_archive-members_example = seed_archive-members (mount_with (codes "zstd"))

abbrev kernel_tree : Entries
kernel_tree = regular (codes "Kconfig") (info_of 1) (codes "main") (
    directory (codes "arch") (info_of 1)
      (directory (codes "tools") (info_of 1)
        (regular (codes "Kconfig.cpu") (info_of 1) (codes "cpu") nothing) nothing)
      (directory (codes "tools") (info_of 1)
        (regular (codes "Kconfig") (info_of 1) (codes "skip") nothing) nothing))

abbrev read_kconfig : Bytes → Option Bytes
read_kconfig path =
    if beq path (codes "Kconfig")
    then some (codes "main\n")
    else if beq path (codes "arch/tools/Kconfig.cpu")
    then some (codes "cpu\n")
    else none

abbrev kernel_bundle : Bytes
kernel_bundle = codes "### Kconfig\nmain\n### arch/tools/Kconfig.cpu\ncpu\n"

kernel_bundled : bundle_text read_kconfig kernel_tree ≡ some kernel_bundle
unfolding bundle_text
kernel_bundled = refl

bundle_text-IsBundle_example :
    (names : List Bytes) × (is_ascending names ≡ true)
    × Permᴰ names (kconfig_paths (walk none (without_skipped kernel_tree)))
    × IsBundle read_kconfig names kernel_bundle
bundle_text-IsBundle_example =
    bundle_text-IsBundle read_kconfig kernel_tree kernel_bundle kernel_bundled
