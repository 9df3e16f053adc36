-- ===== src/Step/Tree/Fill.antt =====
-- How `prepareTree` goes from a mount that the next run does not reuse to one with the stamp.
use kernelbuild_buildkit.Common.{
  true, false, not, ◌&&◌, ◌≡◌, refl, arith, if◌then◌else◌, Option, none, some, inl, inr, Bytes,
  codes, beq, Bool-cases,
}
use kernelbuild_buildkit.Seed.{SeedConfig}
use kernelbuild_buildkit.Step.Mount.{Mount, get, delete, get-put, get-delete}
use kernelbuild_buildkit.Step.Rules.{
  Meets, MeetsUntilLast, Meets->>=, MeetsUntilLast->>=, MeetsUntilLast-idle, Meets-mono,
  MeetsUntilLast-mono,
}
use kernelbuild_buildkit.Step.Run.{StepError, extract_failed, patch_failed, M, ◌>>◌, return}
use kernelbuild_buildkit.Step.Source.{Tarball, in_src, on_mount, acquire_source}
use kernelbuild_buildkit.Step.Source.Laws.{acquire_source-Keeps}
use kernelbuild_buildkit.Step.Tree.{
  stamp_name, tree_present, read_stamp, write_all, nuke_tree, tarball_bytes, unpack_all,
  extract_tarball, apply_patches, source_now, extract_cold, discard_stale, clear_partial, try_seed,
  extract_if_absent, prepare_for, found_bytes,
}
use kernelbuild_buildkit.Step.Tree.Laws.{write_all-Meets, nuke_tree-done}
use kernelbuild_buildkit.Step.Tree.Stale.{
  avoids_stamp, IsHonest, IsCold, IsStale, IsStamped, IsReady, IsStale-IsCold, put-IsStale,
  nuke_tree-Meets, nuke_tree-IsStale, try_seed-MeetsEither, IsBare, get-nuke_tree-IsBare,
  IsStale-IsBlind, source_now-IsStale,
}
use kernelbuild_buildkit.Step.World.{World, Unpacked}

module _ (want : Bytes) (z : beq (codes "none") want ≡ false) (w : World)
    (honest : IsHonest w) where
  unpack_all-IsStale :
      (u : Unpacked) (e : StepError) (m : Mount)
      → avoids_stamp u.entries ≡ true
      → IsStale want m
      → Meets (IsStale want) (λ _ n. IsStale want n) (unpack_all w u e m)
  unfolding unpack_all
  unpack_all-IsStale u e m a s =
      Meets->>= (IsStale want) (λ _ n. IsStale want n) (λ _ n. IsStale want n) (write_all u.entries)
        _ m
        (write_all-Meets (IsStale want) (λ k. not (beq k stamp_name)) (put-IsStale want) u.entries m
          a s)
        (λ _ n q. elim (Bool-cases u.complete) [
          | inl h ↦ rw h (record { along = tt; ends = q })
          | inr h ↦ rw h (record { along = tt; ends = tt })
        ])

  found_bytes-IsStale :
      (name : Bytes) (o : Option Bytes) (m : Mount)
      → IsStale want m
      → Meets (IsStale want) (λ _ n. IsStale want n) (found_bytes name o m)
  found_bytes-IsStale name none m s = record { along = tt; ends = tt }
  found_bytes-IsStale name (some b) m s = record { along = tt; ends = s }

  tarball_bytes-IsStale :
      (t : Tarball) (m : Mount)
      → IsStale want m
      → Meets (IsStale want) (λ _ n. IsStale want n) (tarball_bytes w t m)
  unfolding tarball_bytes
  tarball_bytes-IsStale (in_src name) m s = found_bytes-IsStale name (w.src_file name) m s
  tarball_bytes-IsStale (on_mount name) m s = found_bytes-IsStale name (get name m) m s

  extract_tarball-IsStale :
      (t : Tarball) (m : Mount)
      → IsStale want m
      → Meets (IsStale want) (λ _ n. IsStale want n) (extract_tarball w t m)
  unfolding extract_tarball
  extract_tarball-IsStale t m s =
      Meets->>= (IsStale want) (λ _ n. IsStale want n) (λ _ n. IsStale want n) (tarball_bytes w t) _
        m (tarball_bytes-IsStale t m s)
        (λ body n q. unpack_all-IsStale _ extract_failed n (honest.unpacked _ body) q)

  abbrev patch_step : M (Unit {0})
  patch_step = if beq w.env.apply_patches (codes "1") then apply_patches w else return tt

  patch_step-IsStale :
      (m : Mount) → IsStale want m → Meets (IsStale want) (λ _ n. IsStale want n) (patch_step m)
  unfolding apply_patches
  patch_step-IsStale m s = elim (Bool-cases (beq w.env.apply_patches (codes "1"))) [
    | inl e ↦ rw e (unpack_all-IsStale (w.patched m) patch_failed m (honest.patched m) s)
    | inr e ↦ rw e (record { along = tt; ends = s })
  ]

  extract_cold-stamps :
      (src : Option Tarball) (m : Mount)
      → IsStale want m
      → MeetsUntilLast (IsStale want) (λ _ n. IsStamped want n) (extract_cold w want src m)
  unfolding extract_cold beq
  extract_cold-stamps src m s =
      let st : Unit {0} → Mount → Type 0 = λ _ n. IsStale want n in
      MeetsUntilLast->>= (IsStale want) (λ _ n. IsStale want n) (λ _ n. IsStamped want n)
        (source_now w src) _ m (source_now-IsStale want z w src m s)
        (λ t n q.
          MeetsUntilLast->>= (IsStale want) st (λ _ n. IsStamped want n) (extract_tarball w t) _ n
            (extract_tarball-IsStale t n q)
            (λ _ n q.
              MeetsUntilLast->>= (IsStale want) st (λ _ n. IsStamped want n) patch_step _ n
                (patch_step-IsStale n q) (λ _ n q. record { along = tt; ends = rw get-put refl })))

  extract_if_absent-stamps :
      (src : Option Tarball) (m : Mount)
      → IsBare want z m
      → MeetsUntilLast (IsStale want) (λ _ n. IsStamped want n) (extract_if_absent w want src m)
  unfolding extract_if_absent
  extract_if_absent-stamps src m s = rw (s.1) (extract_cold-stamps src m s.0)

  fill :
      (src : Option Tarball) (seed : Option SeedConfig) (m : Mount)
      → IsBare want z m
      → MeetsUntilLast
          (IsStale want)
          (λ _ n. IsStamped want n)
          ((try_seed w want seed >> extract_if_absent w want src) m)
  unfolding extract_if_absent
  fill src seed m s = elim (try_seed-MeetsEither want z w seed m honest s) [
    | inl h ↦
        MeetsUntilLast->>= (IsStale want) (λ _ n. IsBare want z n) (λ _ n. IsStamped want n)
          (try_seed w want seed) _ m h (λ _ n q. extract_if_absent-stamps src n q)
    | inr h ↦
        MeetsUntilLast-idle (IsStale want) (λ _ n. IsReady want z n) (λ _ n. IsStamped want n)
          (try_seed w want seed) _ m h (λ _ n q. (tt, (rw (q.0) refl, q.1)))
  ]

  abbrev IsAbsent : Mount → Type 0
  IsAbsent n = tree_present n ≡ false

  clear_partial-bares :
      (m : Mount) → IsAbsent m → Meets (IsCold want) (λ _ n. IsBare want z n) (clear_partial w m)
  unfolding clear_partial
  clear_partial-bares m h =
      let keep : (k : Bytes) (m : Mount) → IsAbsent m → IsAbsent (delete k m) =
        λ k m a. rw get-delete (ground arith) in
      let gone =
        Meets-mono IsAbsent (λ _ n. IsAbsent n) (IsCold want) (λ _ n. IsAbsent n) (nuke_tree m)
          (λ n a. rw a refl) (λ _ n a. a) (nuke_tree-Meets want z IsAbsent keep m h) in
      rw h (record {
        along = gone.along;
        ends = rw (nuke_tree-done m) (get-nuke_tree-IsBare want z m);
      })

  nuke_tree-clears :
      (m : Mount) → IsStale want m → Meets (IsCold want) (λ _ n. IsAbsent n) (nuke_tree m)
  nuke_tree-clears m s =
      let h =
        Meets-mono (IsStale want) (λ _ n. IsStale want n) (IsCold want) (λ _ n. IsStale want n)
          (nuke_tree m) (IsStale-IsCold want) (λ _ n a. a) (nuke_tree-IsStale want z m s) in
      record { along = h.along; ends = rw (nuke_tree-done m) ((get-nuke_tree-IsBare want z m).1) }

  discard_stale-clears :
      (m : Mount) → IsCold want m → Meets (IsCold want) (λ _ n. IsAbsent n) (discard_stale w want m)
  unfolding discard_stale
  discard_stale-clears m h =
      let T = IsCold want in
      elim (Bool-cases (tree_present m && not (beq (read_stamp m) want))) [
        | inl e ↦
            let s : IsStale want m = ground arith in
            let acquired =
              Meets-mono (IsStale want) (λ _ n. IsStale want n) T (λ _ n. IsStale want n)
                (acquire_source w m) (IsStale-IsCold want) (λ _ n a. a)
                (acquire_source-Keeps w (IsStale want) (IsStale-IsBlind want z w) m s) in
            rw e (
              Meets->>= T (λ _ n. IsStale want n) (λ _ n. IsAbsent n) (acquire_source w) _ m
                acquired
                (λ src n q.
                  Meets->>= T (λ _ n. IsAbsent n) (λ _ n. IsAbsent n) nuke_tree _ n
                    (nuke_tree-clears n q) (λ _ k a. record { along = tt; ends = a })))
        | inr e ↦ rw e (record { along = tt; ends = ground arith })
      ]

  pub prepare_for-stamps :
      (seed : Option SeedConfig) (m : Mount)
      → IsCold want m
      → MeetsUntilLast (IsCold want) (λ _ n. IsStamped want n) (prepare_for w want seed m)
  unfolding prepare_for
  prepare_for-stamps seed m h =
      let T = IsCold want in
      MeetsUntilLast->>= T (λ _ n. IsAbsent n) (λ _ n. IsStamped want n) (discard_stale w want) _ m
        (discard_stale-clears m h)
        (λ src n a.
          MeetsUntilLast->>= T (λ _ n. IsBare want z n) (λ _ n. IsStamped want n) (clear_partial w)
            _ n (clear_partial-bares n a)
            (λ _ k b.
              MeetsUntilLast-mono (IsStale want) T (λ _ n. IsStamped want n) _ (IsStale-IsCold want)
                (fill src seed k b)))
