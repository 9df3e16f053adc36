-- ===== src/Step/Sweep.antt =====
-- The sweep of `run` over the temporary packs of seeds that a killed push has left.
use kernelbuild_buildkit.Common.{
  Bool, ◌&&◌, List, [], ◌∷◌, if◌then◌else◌, Bytes, codes, has_prefix, has_suffix, drop,
}
use kernelbuild_buildkit.Step.Mount.{names}
use kernelbuild_buildkit.Step.Run.{M, ◌>>◌, return, remove}

-- filepath.Glob of .kbf-seed-*.tmp
unfoldable pub is_stale_seed : Bytes → Bool
unfolding has_prefix has_suffix
is_stale_seed name =
    has_prefix name (codes ".kbf-seed-") && has_suffix (drop 10 name) (codes ".tmp")

unfoldable pub remove_stale : List Bytes → M (Unit {0})
unfolding is_stale_seed
remove_stale [] = return tt
remove_stale (name ∷ ns) =
    let rest = remove_stale ns in if is_stale_seed name then (do remove name; rest) else rest

unfoldable pub sweep_seeds : M (Unit {0})
unfolding remove_stale names
sweep_seeds m = remove_stale (names m) m
