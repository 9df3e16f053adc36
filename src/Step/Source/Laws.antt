-- ===== src/Step/Source/Laws.antt =====
-- What `acquireSource` leaves alone, and what it returns.
use kernelbuild_buildkit.Common.{
  Bool, true, false, not, ◌&&◌, ◌||◌, ◌≡◌, refl, ◌∙◌, arith, Option, none, some, inl, inr, Bytes,
  codes, beq, beq_refl, has_prefix, is_empty, Bool-cases,
}
use mathlib.Core.Bool.{false≢true}
use kernelbuild_buildkit.Spec.Source.{source_ext}
use kernelbuild_buildkit.Step.Mount.{Mount, get, put, delete, get-put}
use kernelbuild_buildkit.Step.Run.{Run}
use kernelbuild_buildkit.Step.Rules.{Ends, Meets}
use kernelbuild_buildkit.Step.Source.{
  Tarball, in_src, on_mount, cached_name, part_name, is_bad_local, is_cached, keep_part, fetch,
  acquire_url, acquire_ext, acquire_local, acquire_source,
}
use kernelbuild_buildkit.Step.World.{World, Fetched, whole, cut_short}

-- The names that `nukeTree` spares.
abbrev pub is_source_name : Bytes → Bool
is_source_name k = has_prefix k (codes ".kbf-src")

cached_name-source : (ext : Bytes) → is_source_name (cached_name ext) ≡ true
unfolding has_prefix
cached_name-source ext = refl

part_name-source : (ext : Bytes) → is_source_name (part_name ext) ≡ true
unfolding has_prefix
part_name-source ext = refl

module _ (w : World) (P : Mount → Type 0) where
  -- `P` says nothing of the cached tarballs.
  pub record IsBlind : Type 0 where
    pub keep_put : (k v : Bytes) (m : Mount) → is_source_name k ≡ true → P m → P (put k v m)
    pub keep_delete : (k : Bytes) (m : Mount) → is_source_name k ≡ true → P m → P (delete k m)

  abbrev pub Keeps : Run Tarball → Type 0
  Keeps = Meets P (λ _ n. P n)

  keep_part-Keeps :
      IsBlind → (ext sum body : Bytes) (m : Mount) → P m → Keeps (keep_part w ext sum body m)
  unfolding keep_part
  keep_part-Keeps b ext sum body m p =
      let q = b.keep_delete (part_name ext) m (part_name-source ext) p in
      elim (Bool-cases (not (is_empty sum) && not (beq (w.sha256_hex body) sum))) [
        | inl e ↦ rw e (record { along = (q, tt); ends = tt })
        | inr e ↦
            let r = b.keep_put (cached_name ext) body _ (cached_name-source ext) q in
            rw e (record { along = (r, tt); ends = r })
      ]

  fetch-Keeps :
      IsBlind → (ext sum : Bytes) (f : Fetched) (m : Mount) → P m → Keeps (fetch w ext sum f m)
  unfolding fetch
  fetch-Keeps b ext sum (cut_short none) m p =
      let q = b.keep_delete (part_name ext) m (part_name-source ext) p in
      record { along = (q, tt); ends = tt }
  fetch-Keeps b ext sum (cut_short (some body)) m p =
      let q = b.keep_delete (part_name ext) m (part_name-source ext) p in
      let r = b.keep_put (part_name ext) body _ (part_name-source ext) q in
      record { along = (q, (r, tt)); ends = tt }
  fetch-Keeps b ext sum (whole body) m p =
      let q = b.keep_delete (part_name ext) m (part_name-source ext) p in
      let r = b.keep_put (part_name ext) body _ (part_name-source ext) q in
      let rest = keep_part-Keeps b ext sum body _ r in
      record { along = (q, (r, rest.along)); ends = rest.ends }

  acquire_url-Keeps :
      IsBlind → (ext url sum : Bytes) (m : Mount) → P m → Keeps (acquire_url w ext url sum m)
  unfolding acquire_url
  acquire_url-Keeps b ext url sum m p =
      elim (Bool-cases (is_cached w sum (get (cached_name ext) m))) [
        | inl e ↦ rw e (record { along = tt; ends = p })
        | inr e ↦ rw e (fetch-Keeps b ext sum (w.download url) m p)
      ]

  acquire_ext-Keeps : IsBlind → (o : Option Bytes) (m : Mount) → P m → Keeps (acquire_ext w o m)
  unfolding acquire_ext
  acquire_ext-Keeps b none m p = record { along = tt; ends = tt }
  acquire_ext-Keeps b (some ext) m p = acquire_url-Keeps b ext w.env.src_url w.env.src_sha256 m p

  acquire_local-Keeps : (name : Bytes) (m : Mount) → P m → Keeps (acquire_local w name m)
  unfolding acquire_local
  acquire_local-Keeps name m p = elim (Bool-cases (is_bad_local name)) [
    | inl e ↦ rw e (record { along = tt; ends = tt })
    | inr e ↦ rw e (record { along = tt; ends = p })
  ]

  -- `acquireSource` keeps what says nothing of the cached tarballs, at every moment.
  pub acquire_source-Keeps : IsBlind → (m : Mount) → P m → Keeps (acquire_source w m)
  unfolding acquire_source
  acquire_source-Keeps b m p = elim (Bool-cases (is_empty w.env.src_local)) [
    | inl e ↦ rw e (acquire_ext-Keeps b (source_ext w.env.src_url) m p)
    | inr e ↦ rw e (acquire_local-Keeps w.env.src_local m p)
  ]

module _ (w : World) where
  -- The tarball on the mount is the pinned one, where there is a pin.
  pub record IsPinned (name : Bytes) (m : Mount) : Type 0 where
    pub ext : Bytes
    pub body : Bytes
    pub ext_of_url : source_ext w.env.src_url ≡ some ext
    pub cached : name ≡ cached_name ext
    pub there : get name m ≡ some body
    pub sum : (is_empty w.env.src_sha256 || beq (w.sha256_hex body) w.env.src_sha256) ≡ true

  abbrev pub IsVerified : Tarball → Mount → Type 0
  IsVerified (in_src name) m = (name ≡ w.env.src_local) × (is_bad_local name ≡ false)
  IsVerified (on_mount name) m = IsPinned name m

  keep_part-IsVerified :
      (ext body : Bytes) (m : Mount)
      → source_ext w.env.src_url ≡ some ext
      → Ends IsVerified
          (keep_part w ext w.env.src_sha256 body m).outcome
          (keep_part w ext w.env.src_sha256 body m).mount
  unfolding keep_part
  keep_part-IsVerified ext body m h =
      elim (Bool-cases
        (not (is_empty w.env.src_sha256) && not (beq (w.sha256_hex body) w.env.src_sha256))) [
          | inl e ↦ rw e tt
          | inr e ↦ rw e (record {
            ext = ext;
            body = body;
            ext_of_url = h;
            cached = refl;
            there = get-put (cached_name ext) (cached_name ext) body _ ∙ rw beq_refl;
            sum = ground arith;
          })
        ]

  fetch-IsVerified :
      (ext : Bytes) (f : Fetched) (m : Mount)
      → source_ext w.env.src_url ≡ some ext
      → let r = fetch w ext w.env.src_sha256 f m in Ends IsVerified r.outcome r.mount
  unfolding fetch
  fetch-IsVerified ext (cut_short none) m h = tt
  fetch-IsVerified ext (cut_short (some body)) m h = tt
  fetch-IsVerified ext (whole body) m h = keep_part-IsVerified ext body _ h

  cached-IsPinned :
      (ext : Bytes) (m : Mount) (o : Option Bytes)
      → source_ext w.env.src_url ≡ some ext
      → get (cached_name ext) m ≡ o
      → is_cached w w.env.src_sha256 o ≡ true
      → IsPinned (cached_name ext) m
  unfolding is_cached
  cached-IsPinned ext m none h e c = absurd (false≢true c)
  cached-IsPinned ext m (some body) h e c = record {
    ext = ext;
    body = body;
    ext_of_url = h;
    cached = refl;
    there = e;
    sum = ground arith;
  }

  acquire_ext-IsVerified :
      (o : Option Bytes) (m : Mount)
      → source_ext w.env.src_url ≡ o
      → let r = acquire_ext w o m in Ends IsVerified r.outcome r.mount
  unfolding acquire_ext acquire_url
  acquire_ext-IsVerified none m h = tt
  acquire_ext-IsVerified (some ext) m h =
      elim (Bool-cases (is_cached w w.env.src_sha256 (get (cached_name ext) m))) [
        | inl e ↦ rw e (cached-IsPinned ext m _ h refl e)
        | inr e ↦ rw e (fetch-IsVerified ext (w.download w.env.src_url) m h)
      ]

  acquire_local-IsVerified :
      (m : Mount) → let r = acquire_local w w.env.src_local m in Ends IsVerified r.outcome r.mount
  unfolding acquire_local
  acquire_local-IsVerified m = elim (Bool-cases (is_bad_local w.env.src_local)) [
    | inl e ↦ rw e tt
    | inr e ↦ rw e (refl, e)
  ]

  -- A tarball that `acquireSource` names on the mount is there under the extension of the URL, and has
  -- the pinned sum, where one is pinned. One that it names under /src is SRC_LOCAL, and stays there.
  pub acquire_source-IsVerified :
      (m : Mount) → let r = acquire_source w m in Ends IsVerified r.outcome r.mount
  unfolding acquire_source
  acquire_source-IsVerified m = elim (Bool-cases (is_empty w.env.src_local)) [
    | inl e ↦ rw e (acquire_ext-IsVerified (source_ext w.env.src_url) m refl)
    | inr e ↦ rw e (acquire_local-IsVerified m)
  ]
