-- ===== src/Kconfigs/Order.antt =====
-- The order of the bundle of `bundleKconfigs`, and what stands in it (cmd/kbuild-step/expect.go).
use mathlib.Core.List.{Permᴰ}
use mathlib.Core.Option.{some-injective}
use mathlib.Core.List.Permᴰ
use mathlib.Core.List.Permᴰ.{nil, cons, swap, trans}
use kernelbuild_buildkit.Common.{
  Bool, true, false, ◌&&◌, List, [], ◌∷◌, ◌++◌, Option, none, some, Bytes, codes, ◌≡◌, refl, subst,
  arith, Bool-cases, inl, inr,
}
use kernelbuild_buildkit.Kconfigs.{
  kconfig_names, text_leb, insert, sort_strings, section, sections, bundle_text,
}
use kernelbuild_buildkit.Kconfigs.Listing.{
  kconfig_paths, without_skipped, kconfig_names-kconfig_paths,
}
use kernelbuild_buildkit.Pack.{Entries, walk}

abbrev leads : Bytes → List Bytes → Bool
leads x [] = true
leads x (y ∷ ys) = text_leb x y

-- No name comes before the one that precedes it.
unfoldable pub is_ascending : List Bytes → Bool
unfolding text_leb
is_ascending [] = true
is_ascending (x ∷ xs) = leads x xs && is_ascending xs

text_leb_total : (s t : Bytes) → text_leb s t ≡ false → text_leb t s ≡ true
unfolding text_leb
text_leb_total [] t h = cc
text_leb_total (a ∷ s) [] h = refl
text_leb_total (a ∷ s) (b ∷ t) h = ground (arith, text_leb_total s t)

leads-insert :
    (y x : Bytes) (ys : List Bytes)
    → text_leb y x ≡ true
    → leads y ys ≡ true
    → leads y (insert x ys) ≡ true
unfolding insert
leads-insert y x [] h k = h
leads-insert y x (z ∷ zs) h k = elim (Bool-cases (text_leb x z)) [ inl e ↦ rw e h | inr e ↦ rw e k ]

is_ascending-insert :
    (x : Bytes) (ys : List Bytes) → is_ascending ys ≡ true → is_ascending (insert x ys) ≡ true
unfolding insert is_ascending
is_ascending-insert x [] h = refl
is_ascending-insert x (y ∷ ys) h = elim (Bool-cases (text_leb x y)) [
  | inl e ↦ rw (e, e) h
  | inr e ↦
      rw e (ground (arith, leads-insert y x ys (text_leb_total x y e), is_ascending-insert x ys))
]

is_ascending-sort_strings : (xs : List Bytes) → is_ascending (sort_strings xs) ≡ true
unfolding sort_strings is_ascending
is_ascending-sort_strings [] = refl
is_ascending-sort_strings (x ∷ xs) =
    is_ascending-insert x (sort_strings xs) (is_ascending-sort_strings xs)

insert-Permᴰ : (x : Bytes) (ys : List Bytes) → Permᴰ (insert x ys) (x ∷ ys)
unfolding insert
insert-Permᴰ x [] = cons refl nil
insert-Permᴰ x (y ∷ ys) = elim (Bool-cases (text_leb x y)) [
  | inl e ↦ rw e (Permᴰ.refl (x ∷ y ∷ ys))
  | inr e ↦ rw e (trans (cons refl (insert-Permᴰ x ys)) (swap refl refl))
]

sort_strings-Permᴰ : (xs : List Bytes) → Permᴰ (sort_strings xs) xs
unfolding sort_strings
sort_strings-Permᴰ [] = nil
sort_strings-Permᴰ (x ∷ xs) =
    trans (insert-Permᴰ x (sort_strings xs)) (cons refl (sort_strings-Permᴰ xs))

-- A text with a section for each name, in their order.
pub data IsBundle (read : Bytes → Option Bytes) : List Bytes → Bytes → Type 0 where
  no_sections : IsBundle read [] []
  with_section :
      {names : List Bytes} {rest : Bytes} (name text : Bytes)
      → read name ≡ some text
      → IsBundle read names rest
      → IsBundle read (name ∷ names) (codes "### " ++ (name ++ (codes "\n" ++ (text ++ rest))))

sections-IsBundle :
    (read : Bytes → Option Bytes) (names : List Bytes) (text : Bytes)
    → sections read names ≡ some text
    → IsBundle read names text
unfolding sections
sections-IsBundle read [] text h = subst (IsBundle read []) (some-injective [] text h) no_sections
sections-IsBundle read (name ∷ names) text h =
    by_parts (read name) (sections read names) refl (λ rest e. sections-IsBundle read names rest e)
      refl h
  where
    by_parts :
        (o r : Option Bytes)
        → read name ≡ o
        → ((rest : Bytes) → sections read names ≡ some rest → IsBundle read names rest)
        → sections read names ≡ r
        → section name o r ≡ some text
        → IsBundle read (name ∷ names) text
    by_parts none r e i f k = cc
    by_parts (some t) none e i f k = cc
    by_parts (some t) (some rest) e i f k =
        subst (IsBundle read (name ∷ names)) (some-injective _ text k)
          (with_section name t e (i rest f))

-- A bundle that succeeds has a section for each file, at any depth, whose name begins with Kconfig, in
-- the tree without the directories at its root that are passed by: every one once, with the path of
-- the file and its text, in the order of the paths.
pub bundle_text-IsBundle :
    (read : Bytes → Option Bytes) (tree : Entries) (text : Bytes)
    → bundle_text read tree ≡ some text
    → (names : List Bytes) × (is_ascending names ≡ true)
      × Permᴰ names (kconfig_paths (walk none (without_skipped tree)))
      × IsBundle read names text
unfolding bundle_text
bundle_text-IsBundle read tree text h = (
  sort_strings (kconfig_names none tree),
  is_ascending-sort_strings (kconfig_names none tree),
  subst (Permᴰ (sort_strings (kconfig_names none tree))) (kconfig_names-kconfig_paths tree)
      (sort_strings-Permᴰ (kconfig_names none tree)),
  sections-IsBundle read (sort_strings (kconfig_names none tree)) text h,
)
