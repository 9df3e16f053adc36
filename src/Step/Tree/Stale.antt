-- ===== src/Step/Tree/Stale.antt =====
-- A mount without the wanted stamp, and how the parts of `prepareTree` keep it so until the last of
-- them writes the stamp.
use kernelbuild_buildkit.Common.{
  Bool, true, false, not, ◌&&◌, ◌||◌, List, [], ◌∷◌, ◌≡◌, refl, arith, if◌then◌else◌, Option, none,
  some, inl, inr, Bytes, codes, beq, beq_iff, has_prefix, member, every, Bool-cases,
}
use kernelbuild_buildkit.Seed.{SeedConfig}
use kernelbuild_buildkit.Step.Mount.{Mount, get, put, delete, names, get-put, get-delete}
use kernelbuild_buildkit.Step.Rules.{Meets, MeetsEither, Meets->>=, MeetsEither->>=}
use kernelbuild_buildkit.Step.Run.{return}
use kernelbuild_buildkit.Step.Source.{Tarball}
use kernelbuild_buildkit.Step.Source.Laws.{IsBlind, acquire_source-Keeps}
use kernelbuild_buildkit.Step.Tree.{
  stamp_name, seed_stamp_name, makefile_name, tree_present, read_stamp, write_all, nuke_tree,
  quarantine, text_or_empty, pull_seed, bless_seed, hydrate_seed, source_now, try_seed,
}
use kernelbuild_buildkit.Step.Tree.Laws.{
  write_all-Meets, remove_all-Meets, nuke_tree-done, get-nuke_tree,
}
use kernelbuild_buildkit.Step.World.{World, Unpacked, Pulled, unreachable, no_such_key, stream}

-- The next run of `prepareTree` would reuse the tree.
abbrev pub is_warm : Bytes → Mount → Bool
is_warm want m = tree_present m && beq (read_stamp m) want

abbrev pub avoids_stamp : List (Bytes × Bytes) → Bool
avoids_stamp es = every (λ e. not (beq e.0 stamp_name)) es

abbrev pub has_makefile : List (Bytes × Bytes) → Bool
has_makefile es = member makefile_name (names es)

-- What `prepareTree` takes for granted of the archives: no tarball and no patch has a stamp at its
-- top level, and a seed that comes to its end has a Makefile.
pub record IsHonest (w : World) : Type 0 where
  pub unpacked : (name body : Bytes) → avoids_stamp (w.unpack name body).entries ≡ true
  pub patched : (m : Mount) → avoids_stamp (w.patched m).entries ≡ true
  pub seed :
      (u : Unpacked) → w.pull_seed ≡ stream u → u.complete ≡ true → has_makefile u.entries ≡ true

module _ (want : Bytes) where
  abbrev pub IsCold : Mount → Type 0
  IsCold m = is_warm want m ≡ false

  abbrev pub IsStale : Mount → Type 0
  IsStale m = beq (read_stamp m) want ≡ false

  abbrev pub IsStamped : Mount → Type 0
  IsStamped m = read_stamp m ≡ want

  pub IsStale-IsCold : (m : Mount) → IsStale m → IsCold m
  IsStale-IsCold m h = ground arith

  pub delete-IsStale :
      beq (codes "none") want ≡ false → (k : Bytes) (m : Mount) → IsStale m → IsStale (delete k m)
  delete-IsStale z k m h = rw get-delete (ground arith)

  pub put-IsStale :
      (k v : Bytes) (m : Mount) → not (beq k stamp_name) ≡ true → IsStale m → IsStale (put k v m)
  put-IsStale k v m e h = rw get-put (ground arith)

  write_all-makefile :
      (es : List (Bytes × Bytes)) (m : Mount)
      → avoids_stamp es ≡ true
      → (has_makefile es || tree_present m) ≡ true
      → IsStale m
      → Meets IsStale (λ _ n. IsStale n × (tree_present n ≡ true)) (write_all es m)
  unfolding write_all member names
  write_all-makefile [] m a h s = record { along = tt; ends = (s, h) }
  write_all-makefile ((k, v) ∷ es) m a h s =
      let s' = put-IsStale k v m (ground arith) s in
      let there : (has_makefile es || tree_present (put k v m)) ≡ true =
        rw get-put (ground (arith, beq_iff k makefile_name)) in
      let rest = write_all-makefile es (put k v m) (ground arith) there s' in
      record { along = (s', rest.along); ends = rest.ends }

  quarantine-avoids_stamp : (es : List (Bytes × Bytes)) → avoids_stamp (quarantine es) ≡ true
  unfolding quarantine
  quarantine-avoids_stamp [] = refl
  quarantine-avoids_stamp ((k, v) ∷ es) = elim (Bool-cases (beq k stamp_name)) [
    | inl e ↦ rw e (quarantine-avoids_stamp es)
    | inr e ↦ rw (e, e) (quarantine-avoids_stamp es)
  ]

  quarantine-makefile :
      (es : List (Bytes × Bytes)) → has_makefile es ≡ true → has_makefile (quarantine es) ≡ true
  unfolding quarantine member names
  quarantine-makefile [] h = h
  quarantine-makefile ((k, v) ∷ es) h =
      ground (arith, quarantine-makefile es, beq_iff k makefile_name, beq_iff k stamp_name)

  module _ (z : beq (codes "none") want ≡ false) where
    pub nuke_tree-Meets :
        (P : Mount → Type 0)
        → ((k : Bytes) (m : Mount) → P m → P (delete k m))
        → (m : Mount) → P m
        → Meets P (λ _ n. P n) (nuke_tree m)
    unfolding nuke_tree
    nuke_tree-Meets P keep m p = remove_all-Meets P keep (names m) m p

    pub nuke_tree-IsStale : (m : Mount) → IsStale m → Meets IsStale (λ _ n. IsStale n) (nuke_tree m)
    nuke_tree-IsStale m s = nuke_tree-Meets IsStale (delete-IsStale z) m s

    -- Neither a stamp nor a Makefile.
    abbrev pub IsBare : Mount → Type 0
    IsBare n = IsStale n × (tree_present n ≡ false)

    pub get-nuke_tree-IsBare : (m : Mount) → IsBare (nuke_tree m).mount
    unfolding has_prefix
    get-nuke_tree-IsBare m = (rw get-nuke_tree z, rw get-nuke_tree refl)

    nuke_tree-IsBare : (m : Mount) → IsStale m → Meets IsStale (λ _ n. IsBare n) (nuke_tree m)
    nuke_tree-IsBare m s = record {
      along = (nuke_tree-IsStale m s).along;
      ends = rw (nuke_tree-done m) (get-nuke_tree-IsBare m);
    }

    abbrev Pullable : Bool → Mount → Type 0
    Pullable found n = IsStale n × (tree_present n ≡ found)

    pull_seed-IsStale :
        (w : World) (p : Pulled) (m : Mount)
        → ((u : Unpacked) → p ≡ stream u → u.complete ≡ true → has_makefile u.entries ≡ true)
        → IsBare m
        → Meets IsStale Pullable (pull_seed w p m)
    unfolding pull_seed
    pull_seed-IsStale w unreachable m h s = record { along = tt; ends = tt }
    pull_seed-IsStale w no_such_key m h s = record { along = tt; ends = s }
    pull_seed-IsStale w (stream u) m h s = elim (Bool-cases u.complete) [
      | inl e ↦
          let avoids = quarantine-avoids_stamp u.entries in
          let made = quarantine-makefile u.entries (h u refl e) in
          rw e (
            Meets->>= IsStale _ Pullable (write_all (quarantine u.entries)) _ m
              (write_all-makefile (quarantine u.entries) m avoids (ground arith) s.0)
              (λ _ n q. record { along = tt; ends = q }))
      | inr e ↦ rw e (
          Meets->>= IsStale (λ _ n. IsStale n) Pullable (write_all (quarantine u.entries)) _ m
            (write_all-Meets IsStale (λ k. not (beq k stamp_name)) put-IsStale
              (quarantine u.entries) m (quarantine-avoids_stamp u.entries) s.0)
            (λ _ n q.
              Meets->>= IsStale (λ _ n. IsStale n) Pullable nuke_tree _ n (nuke_tree-IsStale n q)
                (λ _ n q. record { along = tt; ends = tt })))
    ]

    abbrev pub IsReady : Mount → Type 0
    IsReady n = (tree_present n ≡ true) × (read_stamp n ≡ want)

    bless_seed-MeetsEither :
        (w : World) (m : Mount)
        → IsStale m
        → tree_present m ≡ true
        → MeetsEither IsStale (λ _ n. IsBare n) (λ _ n. IsReady n) (bless_seed w want m)
    unfolding bless_seed beq
    bless_seed-MeetsEither w m s p =
        let s' = delete-IsStale z seed_stamp_name m s in
        let n = delete seed_stamp_name m in
        elim (Bool-cases (beq (text_or_empty (get seed_stamp_name m)) want)) [
          | inl e ↦ rw e (
              inr
                (record { along = (s', tt); ends = (rw (get-put, get-delete) p, rw get-put refl) }))
          | inr e ↦
              let rest = nuke_tree-IsBare n s' in
              rw e (inl (record { along = (s', rest.along); ends = rest.ends }))
        ]

    hydrate_seed-MeetsEither :
        (w : World) (m : Mount)
        → IsHonest w
        → IsBare m
        → MeetsEither IsStale (λ _ n. IsBare n) (λ _ n. IsReady n) (hydrate_seed w want m)
    unfolding hydrate_seed
    hydrate_seed-MeetsEither w m honest s =
        MeetsEither->>= IsStale Pullable (λ _ n. IsBare n) (λ _ n. IsReady n)
          (pull_seed w w.pull_seed) _ m (pull_seed-IsStale w w.pull_seed m honest.seed s) go
      where
        go :
            (found : Bool) (n : Mount)
            → Pullable found n
            → MeetsEither IsStale
                (λ _ n. IsBare n)
                (λ _ n. IsReady n)
                ((if found then bless_seed w want else return tt) n)
        go true n (s, p) = bless_seed-MeetsEither w n s p
        go false n s = inl (record { along = tt; ends = s })

    pub try_seed-MeetsEither :
        (w : World) (seed : Option SeedConfig) (m : Mount)
        → IsHonest w
        → IsBare m
        → MeetsEither IsStale (λ _ n. IsBare n) (λ _ n. IsReady n) (try_seed w want seed m)
    unfolding try_seed
    try_seed-MeetsEither w none m honest s = inl (record { along = tt; ends = s })
    try_seed-MeetsEither w (some seed) m honest s = rw (s.1) (hydrate_seed-MeetsEither w m honest s)

    pub IsStale-IsBlind : (w : World) → IsBlind w IsStale
    unfolding has_prefix
    IsStale-IsBlind w = record {
      keep_put = λ k v m e s. put-IsStale k v m (ground (arith, beq_iff k stamp_name)) s;
      keep_delete = λ k m e s. delete-IsStale z k m s;
    }

    pub source_now-IsStale :
        (w : World) (src : Option Tarball) (m : Mount)
        → IsStale m
        → Meets IsStale (λ _ n. IsStale n) (source_now w src m)
    unfolding source_now
    source_now-IsStale w (some src) m s = record { along = tt; ends = s }
    source_now-IsStale w none m s = acquire_source-Keeps w IsStale (IsStale-IsBlind w) m s
