-- ===== src/Seed/Contract.antt =====
-- The step reads back what the client wrote.
use kernelbuild_buildkit.Common.{
  ℕ, zero, suc, Bool, true, false, not, [], ◌∷◌, ◌++◌, ◌≡◌, refl, sym, ap, ◌∙◌, arith, ltb, ◌==◌,
  Option, some, inl, inr, Bytes, codes, beq, is_empty, every, every-append, every_mono, take, split,
  split-append, break_at, cut, trim_space, trim_space-graphic, is_graphic, hex, ok,
}
use kernelbuild_buildkit.Spec.{Spec, arch_or_default, patched_suffix}
use kernelbuild_buildkit.Spec.Safety.{IsToken}
use kernelbuild_buildkit.Spec.Accepted.{IsSafe, validate-IsSafe}
use kernelbuild_buildkit.Spec.Accepted.Limits.{SeedSafe}
use kernelbuild_buildkit.Spec.Validate.{validate}
use mathlib.Core.Bool.{false≢true}
use kernelbuild_buildkit.Seed.{
  short_hash, toolchain_hash, tree_name, seed_key, region_or_auto, push_flag, seed_text, seed_cfg,
  SeedConfig, read_pair, read_seed_line, read_seed_lines, value_of, no_seed, usable, load_seed_cfg,
}

-- A digest is made of bytes.
abbrev pub IsDigest : (Bytes → Bytes) → Type 0
IsDigest sum256 = (b : Bytes) → every (λ c. ltb c 256) (sum256 b) ≡ true

hex-IsToken : (s : Bytes) → every (λ c. ltb c 256) s ≡ true → IsToken (hex s)
unfolding hex
hex-IsToken [] h = refl
hex-IsToken (c ∷ s) h = ground (arith, hex-IsToken s)

every-take : (p : ℕ → Bool) (n : ℕ) (s : Bytes) → every p s ≡ true → every p (take n s) ≡ true
every-take p zero s h = refl
every-take p (suc n) [] h = refl
every-take p (suc n) (c ∷ s) h = ground (arith, every-take p n s)

append-IsToken : (s t : Bytes) → IsToken s → IsToken t → IsToken (s ++ t)
append-IsToken s t h k = rw every-append (rw (h, k))

arch-IsToken : (s : Spec) → IsSafe s → IsToken (arch_or_default s)
arch-IsToken s v = elim (v.images.arch_known) [ inl x ↦ rw x | inr (a, _) ↦ rw a ]

suffix-IsToken : (s : Spec) → IsToken (patched_suffix s)
unfolding patched_suffix
suffix-IsToken s = ground arith

abbrev read_cut : Bytes × Option Bytes → SeedConfig → SeedConfig
read_cut (k, v) c = read_pair k (value_of v) c

read_seed_line_of :
    (line : Bytes) (c : SeedConfig)
    → IsToken line
    → read_seed_line line c ≡ read_cut (cut b'=' line) c
unfolding read_seed_line
read_seed_line_of line c h = rw (trim_space-graphic line h)

-- A line of the secret, up to its newline.
read_line_of :
    (line rest : Bytes) (c : SeedConfig)
    → IsToken line
    → read_seed_lines (split b'\n' (line ++ b'\n' ∷ rest)) c
      ≡ read_seed_lines (split b'\n' rest) (read_cut (cut b'=' line) c)
unfolding read_seed_lines
read_line_of line rest c h =
    let e : every (λ x. not (x == b'\n')) line ≡ true =
      every_mono is_graphic (λ x. not (x == b'\n')) line (λ x g. ground arith) h in
    rw (split-append b'\n' line rest e)
      (ap (read_seed_lines (split b'\n' rest)) (read_seed_line_of line c h))

-- The four lines of the secret, each a token with its key in front.
four_lines :
    (url key region push rest : Bytes) (c : SeedConfig)
    → IsToken url
    → IsToken key
    → IsToken region
    → IsToken push
    → read_seed_lines
        (split b'\n' (
          codes "SEED_URL="
          ++ (url
              ++ (b'\n'
                  ∷ (codes "SEED_KEY="
                      ++ (key
                          ++ (b'\n'
                              ∷ (codes "SEED_REGION="
                                  ++ (region
                                      ++ (b'\n'
                                          ∷ (codes "SEED_PUSH="
                                              ++ (push ++ (b'\n' ∷ rest)))))))))))))
        c
      ≡ read_seed_lines
          (split b'\n' rest)
          (record { url = url; key = key; region = region; push = beq push (codes "1") })
unfolding break_at read_pair beq
four_lines url key region push rest c hu hk hr hp =
    read_line_of (codes "SEED_URL=" ++ url) _ c hu
    ∙ read_line_of (codes "SEED_KEY=" ++ key) _ (record c { url = url }) hk
    ∙ read_line_of (codes "SEED_REGION=" ++ region) _ (record c { url = url; key = key }) hr
    ∙ read_line_of (codes "SEED_PUSH=" ++ push) rest
        (record c { url = url; key = key; region = region }) hp

append-is_empty : (s : Bytes) (c : ℕ) (t : Bytes) → is_empty (s ++ c ∷ t) ≡ false
append-is_empty [] c t = refl
append-is_empty (x ∷ s) c t = refl

module _ (sum256 : Bytes → Bytes) (digest : IsDigest sum256) where
  short_hash-IsToken : (s : Spec) → IsToken (short_hash sum256 s)
  unfolding short_hash toolchain_hash
  short_hash-IsToken s =
      hex-IsToken (take 8 (toolchain_hash sum256 s))
        (every-take (λ c. ltb c 256) 8 (toolchain_hash sum256 s) (digest _))

  tree_name-IsToken : (s : Spec) → IsSafe s → IsToken (tree_name sum256 s)
  unfolding tree_name
  tree_name-IsToken s v = append-IsToken s.kernel_version _ v.names.version_token (
      append-IsToken (arch_or_default s) _ (arch-IsToken s v)
        (append-IsToken (short_hash sum256 s) _ (short_hash-IsToken s) (suffix-IsToken s)))

  seed_key-IsToken : (s : Spec) → IsSafe s → IsToken s.seed_prefix → IsToken (seed_key sum256 s)
  unfolding seed_key
  seed_key-IsToken s v h =
      append-IsToken s.seed_prefix _ h
        (append-IsToken (tree_name sum256 s) _ (tree_name-IsToken s v) refl)

  region-IsToken : (s : Spec) → IsToken s.seed_region → IsToken (region_or_auto sum256 s)
  unfolding region_or_auto
  region-IsToken s h = ground arith

  -- The settings that the step works with.
  abbrev pub described : Spec → SeedConfig
  described s = record {
    url = s.seed_url;
    key = seed_key sum256 s;
    region = region_or_auto sum256 s;
    push = s.seed_push;
  }

  push_flag-IsToken : (s : Spec) → IsToken (push_flag sum256 s)
  push_flag-IsToken s = ground arith

  push_flag-read : (s : Spec) → beq (push_flag sum256 s) (codes "1") ≡ s.seed_push
  unfolding beq
  push_flag-read s = ground arith

  seed_key-is_empty : (s : Spec) → is_empty (seed_key sum256 s) ≡ false
  unfolding seed_key
  seed_key-is_empty s = append-is_empty s.seed_prefix _ _

  read-seed_text :
      (s : Spec)
      → IsSafe s
      → SeedSafe s
      → read_seed_lines (split b'\n' (seed_text sum256 s)) no_seed ≡ described s
  unfolding seed_text
  read-seed_text s v on =
      four_lines s.seed_url (seed_key sum256 s) (region_or_auto sum256 s) (push_flag sum256 s) []
        no_seed on.url_token (seed_key-IsToken s v on.prefix_token)
        (region-IsToken s on.region_token) (push_flag-IsToken s)
      ∙ (unfold split read_seed_lines read_seed_line break_at trim_space read_pair beq in
          rw (push_flag-read s))

  -- The secret that the client writes for an accepted Spec is read by the step as the settings that
  -- the client meant, where both credentials are there.
  pub load_seed_cfg-seed_cfg :
      (s : Spec) (access secret raw : Bytes)
      → validate s ≡ ok tt
      → seed_cfg sum256 s ≡ some raw
      → load_seed_cfg
          (record { seed_cfg_file = some raw; access_key = some access; secret_key = some secret })
        ≡ some (described s)
  unfolding seed_cfg load_seed_cfg usable
  load_seed_cfg-seed_cfg s access secret raw valid h =
      let v = validate-IsSafe s valid in
      let text : seed_text sum256 s ≡ raw = ground arith in
      let address : is_empty s.seed_url ≡ false = ground arith in
      elim (v.seed) [
        | inl off ↦ absurd (false≢true (sym address ∙ off))
        | inr on ↦ rw (← text) (rw (read-seed_text s v on) (rw (address, seed_key-is_empty s)))
      ]
