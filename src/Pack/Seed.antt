-- ===== src/Pack/Seed.antt =====
-- What the archive of a seed holds and what it leaves out (cmd/kbuild-step/main.go, `seedPush`).
use kernelbuild_buildkit.Common.{
  Bool, true, false, ◌==◌, ◌&&◌, ◌||◌, List, [], ◌∷◌, ◌++◌, Option, none, some, Bytes, codes, beq,
  has_prefix, take, length, if◌then◌else◌, ◌≡◌, ◌∙◌, refl, ap, Bool-cases, inl, inr,
}
use kernelbuild_buildkit.Pack.{
  Entries, nothing, regular, symlink, directory, regular_kind, symlink_kind, directory_kind, Visit,
  walk, below, Member, is_reserved, seed_members, seed_archive,
}

-- The names that the runner keeps for itself: a seed on its way, or a source, by their first letters.
unfoldable pub is_own : Bytes → Bool
unfolding beq
is_own name = beq (take 10 name) (codes ".kbf-seed-") || beq (take 8 name) (codes ".kbf-src")

has_prefix-take : (s p : Bytes) → has_prefix s p ≡ beq (take (length p) s) p
unfolding has_prefix beq
has_prefix-take s [] = refl
has_prefix-take [] (c ∷ p) = refl
has_prefix-take (a ∷ s) (c ∷ p) = ap (λ b. a == c && b) (has_prefix-take s p)

is_reserved-is_own : (name : Bytes) → is_reserved name ≡ is_own name
unfolding is_reserved is_own
is_reserved-is_own name =
    rw (has_prefix-take name (codes ".kbf-seed-"), has_prefix-take name (codes ".kbf-src")) refl

abbrev unless_own : Bytes → Member → List Member
unless_own name m = if is_own name then [] else m ∷ []

-- A member for each entry at any depth whose name is not the runner's own, an entry before what stands
-- below it. What stands below a directory with such a name is there.
unfoldable pub members : Option Bytes → Entries → List Member
unfolding is_own
members parent nothing = []
members parent (regular name info text rest) =
    unless_own name
      (record { name = below parent name; kind = regular_kind; info = info; text = text })
    ++ members parent rest
members parent (symlink name info target rest) =
    unless_own name
      (record { name = below parent name; kind = symlink_kind target; info = info; text = [] })
    ++ members parent rest
members parent (directory name info entries rest) =
    unless_own name
      (record { name = below parent name; kind = directory_kind; info = info; text = [] })
    ++ (members (some (below parent name)) entries ++ members parent rest)

seed_members-append :
    (vs ws : List Visit) → seed_members (vs ++ ws) ≡ seed_members vs ++ seed_members ws
unfolding seed_members
seed_members-append [] ws = refl
seed_members-append (v ∷ vs) ws = elim (Bool-cases (is_reserved v.base)) [
  | inl e ↦ rw (e, seed_members-append vs ws) refl
  | inr e ↦ rw (e, seed_members-append vs ws) refl
]

-- The first visit, and the others.
seed_members-cons :
    (v : Visit) (vs : List Visit) (l : List Member)
    → seed_members vs ≡ l
    → seed_members (v ∷ vs)
      ≡ unless_own v.base (record { name = v.path; kind = v.kind; info = v.info; text = v.text })
        ++ l
unfolding seed_members
seed_members-cons v vs l h = rw (is_reserved-is_own v.base, h) (by_name (is_own v.base))
  where
    m : Member
    m = record { name = v.path; kind = v.kind; info = v.info; text = v.text }

    by_name : (b : Bool) → (if b then l else m ∷ l) ≡ (if b then [] else m ∷ []) ++ l
    by_name true = refl
    by_name false = refl

seed_members-walk :
    (parent : Option Bytes) (entries : Entries)
    → seed_members (walk parent entries) ≡ members parent entries
unfolding walk members
seed_members-walk parent nothing = unfold seed_members in refl
seed_members-walk parent (regular name info text rest) =
    seed_members-cons _ (walk parent rest) _ (seed_members-walk parent rest)
seed_members-walk parent (symlink name info target rest) =
    seed_members-cons _ (walk parent rest) _ (seed_members-walk parent rest)
seed_members-walk parent (directory name info entries rest) =
    let inner = walk (some (below parent name)) entries in
    seed_members-cons _ (inner ++ walk parent rest) _ (
      seed_members-append inner (walk parent rest)
      ∙ (ap (λ l. l ++ seed_members (walk parent rest))
            (seed_members-walk (some (below parent name)) entries)
          ∙ ap (λ l. members (some (below parent name)) entries ++ l)
              (seed_members-walk parent rest)))

-- The archive of a seed holds exactly the entries of the tree, at any depth, whose names begin neither
-- with .kbf-seed- nor with .kbf-src: each with its path, kind and information and, of a file, its
-- text, an entry before what stands below it.
pub seed_archive-members : (tree : Entries) → seed_archive tree ≡ members none tree
unfolding seed_archive
seed_archive-members tree = seed_members-walk none tree
