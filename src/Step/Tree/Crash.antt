-- ===== src/Step/Tree/Crash.antt =====
-- What `prepareTree` leaves behind when the runner is killed, and what it keeps: the stamp and the
-- Makefile of a mount decide whether the next run reuses its tree.
use kernelbuild_buildkit.Common.{
  true, false, [], ◌≡◌, refl, ap, arith, Option, none, some, Bytes, codes, beq, beq_iff, All,
}
use kernelbuild_buildkit.Seed.{SeedConfig}
use kernelbuild_buildkit.Step.Mount.{Mount, get, get-put, get-delete}
use kernelbuild_buildkit.Step.Rules.{MeetsUntilLast}
use kernelbuild_buildkit.Step.Run.{StepError, Outcome, done, failed, return}
use kernelbuild_buildkit.Step.Source.{Tarball, acquire_source}
use kernelbuild_buildkit.Step.Source.Laws.{is_source_name, IsBlind, acquire_source-Keeps}
use kernelbuild_buildkit.Step.Tree.{
  tree_present, read_stamp, stamp_want, discard_stale, clear_partial, try_seed, extract_if_absent,
  prepare_for, prepare_tree, prepare_with, stamp_of, patches_sum, source_identity,
}
use kernelbuild_buildkit.Step.Tree.Stale.{is_warm, IsHonest}
use kernelbuild_buildkit.Step.Tree.Fill.{prepare_for-stamps}
use kernelbuild_buildkit.Step.World.{World}

stamp_of-none :
    (p id : Outcome Bytes) (want : Bytes)
    → stamp_of p id ≡ done want
    → beq (codes "none") want ≡ false
unfolding beq
stamp_of-none (failed e) id want h = ground arith
stamp_of-none (done p) (failed e) want h = ground arith
stamp_of-none (done p) (done id) want h = ground arith

stamp_want-none :
    (w : World) (want : Bytes) → stamp_want w ≡ done want → beq (codes "none") want ≡ false
unfolding stamp_want
stamp_want-none w want h = stamp_of-none (patches_sum w) (source_identity w) want h

prepare_tree-at :
    (w : World) (seed : Option SeedConfig) (want : Bytes) (m : Mount)
    → stamp_want w ≡ done want
    → prepare_tree w seed m ≡ prepare_for w want seed m
unfolding prepare_tree
prepare_tree-at w seed want m e = ap (λ o. prepare_with w o seed m) e

module _ (w : World) (want : Bytes) (m : Mount) (p : tree_present m ≡ true) where
  discard_stale-warm : beq (read_stamp m) want ≡ true → discard_stale w want m ≡ return none m
  unfolding discard_stale
  discard_stale-warm q = rw (p, q) refl

  clear_partial-warm : clear_partial w m ≡ return tt m
  unfolding clear_partial
  clear_partial-warm = rw p refl

  try_seed-warm : (seed : Option SeedConfig) → try_seed w want seed m ≡ return tt m
  unfolding try_seed
  try_seed-warm none = refl
  try_seed-warm (some seed) = rw p refl

  extract_if_absent-warm : (src : Option Tarball) → extract_if_absent w want src m ≡ return tt m
  unfolding extract_if_absent
  extract_if_absent-warm src = rw p refl

  prepare_for-warm :
      (seed : Option SeedConfig)
      → beq (read_stamp m) want ≡ true
      → prepare_for w want seed m ≡ return tt m
  unfolding prepare_for
  prepare_for-warm seed q =
      rw (discard_stale-warm q)
        (rw clear_partial-warm (rw try_seed-warm (rw extract_if_absent-warm refl)))

-- A run of `prepareTree` on a mount whose tree does not count as that of its inputs, by the Makefile and
-- the stamp: whenever the runner is killed before the last change, what it leaves does not count as
-- their tree either, so that a next run for the same inputs does not reuse it; and a run that succeeds
-- leaves the stamp of its inputs. Of a next run for other inputs nothing is said. The archives are
-- honest: none of them brings a stamp of its own, and a whole seed has a Makefile.
pub prepare_tree-crash :
    (w : World) (seed : Option SeedConfig) (want : Bytes) (m : Mount)
    → IsHonest w
    → stamp_want w ≡ done want
    → is_warm want m ≡ false
    → MeetsUntilLast
        (λ n. is_warm want n ≡ false)
        (λ _ n. read_stamp n ≡ want)
        (prepare_tree w seed m)
prepare_tree-crash w seed want m honest e h =
    rw (prepare_tree-at w seed want m e)
      (prepare_for-stamps want (stamp_want-none w want e) w honest seed m h)

-- A tree with a Makefile and the stamp of this build's inputs is reused as it is: `prepareTree`
-- succeeds and changes nothing on the mount, whatever the world around it holds.
pub prepare_tree-warm :
    (w : World) (seed : Option SeedConfig) (want : Bytes) (m : Mount)
    → stamp_want w ≡ done want
    → is_warm want m ≡ true
    → prepare_tree w seed m ≡ record { outcome = done tt; mount = m; trail = [] }
prepare_tree-warm w seed want m e h =
    rw (prepare_tree-at w seed want m e)
      (prepare_for-warm w want m (ground arith) seed (ground arith))

-- The entries of a mount, less the cached tarballs.
abbrev pub IsSameTree : Mount → Mount → Type 0
IsSameTree m n = (k : Bytes) → is_source_name k ≡ false → get k n ≡ get k m

discard_stale-fails :
    (w : World) (want : Bytes) (m : Mount) (e : StepError)
    → tree_present m ≡ true
    → beq (read_stamp m) want ≡ false
    → (acquire_source w m).outcome ≡ failed e
    → discard_stale w want m ≡ record {
      outcome = failed e;
      mount = (acquire_source w m).mount;
      trail = (acquire_source w m).trail;
    }
unfolding discard_stale
discard_stale-fails w want m e there other f = rw (there, other) (rw f refl)

prepare_for-fails :
    (w : World) (want : Bytes) (m : Mount) (seed : Option SeedConfig) (e : StepError)
    → tree_present m ≡ true
    → beq (read_stamp m) want ≡ false
    → (acquire_source w m).outcome ≡ failed e
    → All (IsSameTree m) (acquire_source w m).trail
    → ((prepare_for w want seed m).outcome ≡ failed e)
      × All (IsSameTree m) (prepare_for w want seed m).trail
unfolding prepare_for
prepare_for-fails w want m seed e there other f kept =
    rw (discard_stale-fails w want m e there other f) (refl, kept)

-- A tree with another stamp is kept whole until the tarball that replaces it is there: when that
-- fails, as it does on a wrong sum, `prepareTree` fails with the same error, and no mount on the way
-- differs from the first one but in the cached tarballs.
pub prepare_tree-keeps :
    (w : World) (seed : Option SeedConfig) (want : Bytes) (m : Mount) (e : StepError)
    → stamp_want w ≡ done want
    → tree_present m ≡ true
    → beq (read_stamp m) want ≡ false
    → (acquire_source w m).outcome ≡ failed e
    → ((prepare_tree w seed m).outcome ≡ failed e)
      × All (IsSameTree m) (prepare_tree w seed m).trail
prepare_tree-keeps w seed want m e h there other f =
    let blind : IsBlind w (IsSameTree m) = record {
      keep_put = λ k v n s same j i. rw get-put (ground (arith, beq_iff k j, same j i));
      keep_delete = λ k n s same j i. rw get-delete (ground (arith, beq_iff k j, same j i));
    } in
    let kept = acquire_source-Keeps w (IsSameTree m) blind m (λ k i. refl) in
    rw (prepare_tree-at w seed want m h)
      (prepare_for-fails w want m seed e there other f kept.along)
