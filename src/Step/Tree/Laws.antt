-- ===== src/Step/Tree/Laws.antt =====
-- What the parts of `prepareTree` do to the entries of the mount.
use kernelbuild_buildkit.Common.{
  Bool, true, false, not, ◌&&◌, List, [], ◌∷◌, ◌≡◌, refl, arith, if◌then◌else◌, none, inl, inr,
  Bytes, codes, beq_iff, has_prefix, member, every, Bool-cases,
}
use kernelbuild_buildkit.Step.Mount.{Mount, get, put, delete, names, get-delete}
use kernelbuild_buildkit.Step.Run.{done}
use kernelbuild_buildkit.Step.Rules.{Meets}
use kernelbuild_buildkit.Step.Tree.{write_all, remove_all, nuke_tree}

module _ (P : Mount → Type 0) where
  abbrev pub Kept : Type 0
  Kept = (k : Bytes) (m : Mount) → P m → P (delete k m)

  pub write_all-Meets :
      (allowed : Bytes → Bool)
      → ((k v : Bytes) (m : Mount) → allowed k ≡ true → P m → P (put k v m))
      → (es : List (Bytes × Bytes)) (m : Mount) → every (λ e. allowed e.0) es ≡ true
      → P m
      → Meets P (λ _ n. P n) (write_all es m)
  unfolding write_all
  write_all-Meets allowed keep [] m h p = record { along = tt; ends = p }
  write_all-Meets allowed keep ((k, v) ∷ es) m h p =
      let p' = keep k v m (ground arith) p in
      let rest = write_all-Meets allowed keep es (put k v m) (ground arith) p' in
      record { along = (p', rest.along); ends = rest.ends }

  pub remove_all-Meets :
      Kept → (ns : List Bytes) (m : Mount) → P m → Meets P (λ _ n. P n) (remove_all ns m)
  unfolding remove_all
  remove_all-Meets keep [] m p = record { along = tt; ends = p }
  remove_all-Meets keep (k ∷ ns) m p = elim (Bool-cases (has_prefix k (codes ".kbf-src"))) [
    | inl e ↦ rw e (remove_all-Meets keep ns m p)
    | inr e ↦
        let p' = keep k m p in
        let rest = remove_all-Meets keep ns (delete k m) p' in
        rw e (record { along = (p', rest.along); ends = rest.ends })
  ]

remove_all-done : (ns : List Bytes) (m : Mount) → (remove_all ns m).outcome ≡ done tt
unfolding remove_all
remove_all-done [] m = refl
remove_all-done (k ∷ ns) m = elim (Bool-cases (has_prefix k (codes ".kbf-src"))) [
  | inl e ↦ rw e (remove_all-done ns m)
  | inr e ↦ rw e (remove_all-done ns (delete k m))
]

abbrev spared : Bytes → Bool
spared k = has_prefix k (codes ".kbf-src")

get-remove_all :
    (k : Bytes) (ns : List Bytes) (m : Mount)
    → get k (remove_all ns m).mount ≡ (if member k ns && not (spared k) then none else get k m)
unfolding remove_all member
get-remove_all k [] m = refl
get-remove_all k (n ∷ ns) m = elim (Bool-cases (spared n)) [
  | inl e ↦ rw e (ground (arith, get-remove_all k ns m, beq_iff n k))
  | inr e ↦ rw e (ground (arith, get-remove_all k ns (delete n m), get-delete k n m, beq_iff n k))
]

get-names : (k : Bytes) (m : Mount) → member k (names m) ≡ false → get k m ≡ none
unfolding get names member
get-names k [] h = refl
get-names k ((j, w) ∷ m) h = ground (arith, get-names k m)

-- `nukeTree` succeeds, and keeps the cached tarballs alone.
pub nuke_tree-done : (m : Mount) → (nuke_tree m).outcome ≡ done tt
unfolding nuke_tree
nuke_tree-done m = remove_all-done (names m) m

pub get-nuke_tree :
    (k : Bytes) (m : Mount)
    → get k (nuke_tree m).mount ≡ (if has_prefix k (codes ".kbf-src") then get k m else none)
unfolding nuke_tree
get-nuke_tree k m = ground (arith, get-remove_all k (names m) m, get-names k m)
