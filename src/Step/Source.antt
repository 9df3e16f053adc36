-- ===== src/Step/Source.antt =====
-- `acquireSource`: the source tarball, from /src or fetched into the mount.
pub mod Laws
use kernelbuild_buildkit.Common.{
  Bool, true, false, not, ◌&&◌, ◌||◌, List, [], ◌∷◌, ◌++◌, if◌then◌else◌, Option, none, some, Bytes,
  codes, beq, is_empty, has_prefix, contains, ◌≡◌,
}
use kernelbuild_buildkit.Spec.Source.{source_ext}
use kernelbuild_buildkit.Step.Mount.{Mount, get, put, delete}
use kernelbuild_buildkit.Step.Run.{
  StepError, unreadable_source, bad_local_name, unsupported_source, download_failed,
  sha256_mismatch, M, ◌>>=◌, ◌>>◌, return, fail, read, change, write, remove,
}
use kernelbuild_buildkit.Step.World.{World, Fetched, whole, cut_short}

-- The path that `acquireSource` returns: under /src, or on the mount.
pub data Tarball : Type 0 where
  in_src : Bytes → Tarball
  on_mount : Bytes → Tarball

abbrev pub cached_name : Bytes → Bytes
cached_name ext = codes ".kbf-src.tar" ++ ext

abbrev pub part_name : Bytes → Bytes
part_name ext = cached_name ext ++ codes ".part"

-- `os.Rename(cached+".part", cached)`; the caller has seen the file.
abbrev rename_part : Bytes → Bytes → M (Unit {0})
rename_part ext body = change (λ m. put (cached_name ext) body (delete (part_name ext) m))

-- The re-check of SRC_LOCAL.
unfoldable pub is_bad_local : Bytes → Bool
unfolding contains has_prefix
is_bad_local name = contains name (codes "..") || has_prefix name (codes "/")

module _ (w : World) where
  -- The cached tarball, if there is one and its sum is the pinned one.
  unfoldable pub is_cached : Bytes → Option Bytes → Bool
  unfolding beq
  is_cached sum none = false
  is_cached sum (some body) = not (is_empty sum) && beq (w.sha256_hex body) sum

  -- The check of the sum of the fetched file, and the rename that makes it the cached tarball.
  unfoldable pub keep_part : Bytes → Bytes → Bytes → M Tarball
  unfolding beq
  keep_part ext sum body =
      if not (is_empty sum) && not (beq (w.sha256_hex body) sum)
      then (do remove (part_name ext); fail (sha256_mismatch (w.sha256_hex body) sum))
      else (do rename_part ext body; return (on_mount (cached_name ext)))

  -- `download(ctx, srcURL, cached+".part")` starts clean, then writes the part file.
  unfoldable pub fetch : Bytes → Bytes → Fetched → M Tarball
  unfolding keep_part
  fetch ext sum (cut_short none) = do remove (part_name ext); fail download_failed
  fetch ext sum (cut_short (some body)) = do
    remove (part_name ext)
    write (part_name ext) body
    fail download_failed
  fetch ext sum (whole body) = do
    remove (part_name ext)
    write (part_name ext) body
    keep_part ext sum body

  unfoldable pub acquire_url : Bytes → Bytes → Bytes → M Tarball
  unfolding is_cached fetch
  acquire_url ext url sum = do
    cached ← read (cached_name ext)
    if is_cached sum cached
        then return (on_mount (cached_name ext))
        else fetch ext sum (w.download url)

  -- What follows the extension of the URL.
  unfoldable pub acquire_ext : Option Bytes → M Tarball
  unfolding acquire_url
  acquire_ext none = fail (unsupported_source w.env.src_url)
  acquire_ext (some ext) = acquire_url ext w.env.src_url w.env.src_sha256

  unfoldable pub acquire_local : Bytes → M Tarball
  unfolding is_bad_local
  acquire_local name =
      if is_bad_local name then fail (bad_local_name name) else return (in_src name)

  -- `acquireSource`
  unfoldable pub acquire_source : M Tarball
  unfolding acquire_local acquire_ext source_ext
  acquire_source =
      if not (is_empty w.env.src_local)
      then acquire_local w.env.src_local
      else acquire_ext (source_ext w.env.src_url)
