-- ===== src/Pack/Anonymous.antt =====
-- That the archive of the modules is reproducible (cmd/kbuild-step/main.go, `packModules`).
use kernelbuild_buildkit.Common.{
  List, [], ◌∷◌, ◌++◌, map, Option, none, some, Bytes, ◌≡◌, ◌∙◌, refl, sym, ap,
}
use kernelbuild_buildkit.Pack.{
  Info, Entries, nothing, regular, symlink, directory, walk, below, clamp_info, module_member,
  modules_archive,
}
use kernelbuild_buildkit.Spec.Timestamp.{ℤ, pos, parse_int}

-- The entries without their times and owners.
abbrev without_owner : Info → Info
without_owner info = record {
  perm = info.perm;
  mtime = pos 0;
  uid = 0;
  gid = 0;
  uname = [];
  gname = [];
}

unfoldable pub anonymous : Entries → Entries
anonymous nothing = nothing
anonymous (regular name info text rest) = regular name (without_owner info) text (anonymous rest)
anonymous (symlink name info target rest) =
    symlink name (without_owner info) target (anonymous rest)
anonymous (directory name info entries rest) =
    directory name (without_owner info) (anonymous entries) (anonymous rest)

map-append {ℓ κ} :
    {A : Type ℓ} {B : Type κ} (f : A → B) (xs ys : List A) → map f (xs ++ ys) ≡ map f xs ++ map f ys
map-append f [] ys = refl
map-append f (x ∷ xs) ys = ap (λ l. f x ∷ l) (map-append f xs ys)

clamp_info-without_owner :
    (epoch : Bytes) (t : ℤ) (info : Info)
    → parse_int epoch ≡ some t
    → clamp_info epoch (without_owner info) ≡ clamp_info epoch info
unfolding clamp_info
clamp_info-without_owner epoch t info h = rw h refl

map-walk-anonymous :
    (epoch : Bytes) (t : ℤ) (parent : Option Bytes) (entries : Entries)
    → parse_int epoch ≡ some t
    → map (module_member epoch) (walk parent (anonymous entries))
      ≡ map (module_member epoch) (walk parent entries)
unfolding walk anonymous module_member
map-walk-anonymous epoch t parent nothing h = refl
map-walk-anonymous epoch t parent (regular name info text rest) h =
    rw (clamp_info-without_owner epoch t info h, map-walk-anonymous epoch t parent rest h) refl
map-walk-anonymous epoch t parent (symlink name info target rest) h =
    rw (clamp_info-without_owner epoch t info h, map-walk-anonymous epoch t parent rest h) refl
map-walk-anonymous epoch t parent (directory name info entries rest) h =
    rw
      (
        clamp_info-without_owner epoch t info h,
        map-append (module_member epoch) (walk (some (below parent name)) (anonymous entries))
            (walk parent (anonymous rest)),
        map-append (module_member epoch) (walk (some (below parent name)) entries)
            (walk parent rest),
        map-walk-anonymous epoch t (some (below parent name)) entries h,
        map-walk-anonymous epoch t parent rest h,
      )
      refl

-- Where the epoch can be read, two stages of modules that differ in the times and the owners of their
-- files alone are packed to the same archive.
pub modules_archive-anonymous :
    (epoch : Bytes) (t : ℤ) (stage other : Entries)
    → parse_int epoch ≡ some t
    → anonymous stage ≡ anonymous other
    → modules_archive epoch stage ≡ modules_archive epoch other
unfolding modules_archive
modules_archive-anonymous epoch t stage other h e =
    sym (map-walk-anonymous epoch t none stage h)
    ∙ (ap (λ s. map (module_member epoch) (walk none s)) e
        ∙ map-walk-anonymous epoch t none other h)
