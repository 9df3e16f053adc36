-- ===== src/Kernelfile/Meaning.antt =====
-- What a Kernelfile says: each field has the value of its key, with no regard to the order.
use kernelbuild_buildkit.Common.{
  ℕ, Bool, true, false, not, ◌&&◌, ◌||◌, [], ◌∷◌, ◌≡◌, refl, sym, ap, ◌∙◌, arith, if◌then◌else◌,
  Bytes, codes, beq, fields_func, ok, >>=-eq-ok,
}
use kernelbuild_buildkit.Spec.{Spec}
use kernelbuild_buildkit.Spec.Source.{source_url_for}
use kernelbuild_buildkit.Kernelfile.{
  Key, kernel, Parser, start, is_target_separator, apply_entry, raw_lines, parse_lines, finish,
  parse_kernelfile,
}
use kernelbuild_buildkit.Kernelfile.Order.{assign, key_name, key_of-name}
use kernelbuild_buildkit.Kernelfile.Similar.{
  IsSimilar-refl, finish-IsSimilar, note, apply_entry-Taken,
}
use kernelbuild_buildkit.Kernelfile.Lines.{Entries, entries, apply_all, parse_lines-Leads}

-- The value of a key as `f` reads it, and `d` if no entry has the key.
unfoldable pub latest {ℓ} : {A : Type ℓ} → (Bytes → A) → Bytes → Entries → A → A
latest f k [] d = d
latest f k ((j, v) ∷ es) d = latest f k es (if beq j k then f v else d)

unfoldable pub mentions : Bytes → Entries → Bool → Bool
mentions k [] d = d
mentions k ((j, v) ∷ es) d = mentions k es (if beq j k then true else d)

abbrev pub text_of : Bytes → Bytes
text_of v = v

-- The fields as the entries give them, before the URL and the pin are decided.
abbrev overlay : Entries → Spec → Spec
overlay es s = record s {
  kernel_version = latest text_of (codes "KERNEL") es s.kernel_version;
  source_url = latest text_of (codes "SOURCE_URL") es s.source_url;
  source_sha256 = latest text_of (codes "SHA256") es s.source_sha256;
  source_date_epoch = latest text_of (codes "EPOCH") es s.source_date_epoch;
  config_name = latest text_of (codes "CONFIG") es s.config_name;
  expect_name = latest text_of (codes "EXPECT") es s.expect_name;
  base_make = latest text_of (codes "BASE_MAKE") es s.base_make;
  apply_patches = latest (λ v. beq v (codes "on")) (codes "PATCHES") es s.apply_patches;
  arch = latest text_of (codes "ARCH") es s.arch;
  cross_compile = latest text_of (codes "CROSS_COMPILE") es s.cross_compile;
  targets = latest (fields_func is_target_separator) (codes "TARGETS") es s.targets;
  proxy_ca_file = latest text_of (codes "PROXY_CA") es s.proxy_ca_file;
  base = latest text_of (codes "BASE") es s.base;
  toolchain_ready = latest (λ v. beq v (codes "ready")) (codes "TOOLCHAIN") es s.toolchain_ready;
}

abbrev overlay_all : Entries → Parser → Parser
overlay_all es p = record {
  spec = overlay es p.spec;
  saw_kernel = mentions (codes "KERNEL") es p.saw_kernel;
  saw_url = mentions (codes "SOURCE_URL") es p.saw_url;
  saw_sha = mentions (codes "SHA256") es p.saw_sha;
  seen = [];
}

overlay-assign :
    (k : Key) (v : Bytes) (n : ℕ) (es : Entries) (p : Parser)
    → overlay_all ((key_name k, v) ∷ es) p ≡ overlay_all es (assign k v (note p (key_name k) n))
unfolding latest mentions assign key_name beq
overlay-assign kernel v n es p = refl
overlay-assign _ v n es p = refl

apply_all-overlay :
    (es : Entries) (p q : Parser)
    → apply_all es p ≡ ok q
    → record q { seen = [] } ≡ overlay_all es p
unfolding apply_all
apply_all-overlay [] p q h = let e : p ≡ q = ground arith in unfold latest mentions in cc e
apply_all-overlay ((key, v) ∷ es) p q h =
    let (p₁, h₁, h₂) = >>=-eq-ok (apply_entry 0 key v p) (apply_all es) h in
    let t = apply_entry-Taken 0 key v p p₁ h₁ in
    let e : key ≡ key_name t.name = key_of-name key t.name t.known in
    let step : overlay_all es p₁ ≡ overlay_all es (assign t.name v (note p (key_name t.name) 0)) =
      ap (overlay_all es) (t.result ∙ ap (λ x. assign t.name v (note p x 0)) e) in
    apply_all-overlay es p₁ q h₂
    ∙ step
    ∙ sym (overlay-assign t.name v 0 es p)
    ∙ sym (ap (λ x. overlay_all ((x, v) ∷ es) p) e)

-- The Spec that the entries describe, over the defaults `s`.
unfoldable pub meaning : Entries → Spec → Spec
unfolding latest mentions source_url_for
meaning es s =
    let has_kernel = mentions (codes "KERNEL") es false in
    let has_url = mentions (codes "SOURCE_URL") es false in
    let version = latest text_of (codes "KERNEL") es s.kernel_version in
    record (overlay es s) {
      source_url =
          if has_kernel && not has_url
          then source_url_for version
          else latest text_of (codes "SOURCE_URL") es s.source_url;
      source_sha256 =
          if (has_kernel || has_url) && not (mentions (codes "SHA256") es false)
          then []
          else latest text_of (codes "SHA256") es s.source_sha256;
    }

finish-overlay : (es : Entries) (s : Spec) → finish (overlay_all es (start s)) ≡ meaning es s
unfolding finish meaning
finish-overlay es s =
    by_flags (mentions (codes "KERNEL") es false && not (mentions (codes "SOURCE_URL") es false))
      ((mentions (codes "KERNEL") es false || mentions (codes "SOURCE_URL") es false)
        && not (mentions (codes "SHA256") es false))
      (overlay es s)
  where
    by_flags :
        (a b : Bool) (o : Spec)
        → (let d = if a then record o { source_url = source_url_for o.kernel_version } else o in
            if b then record d { source_sha256 = [] } else d)
          ≡ record o {
            source_url = if a then source_url_for o.kernel_version else o.source_url;
            source_sha256 = if b then [] else o.source_sha256;
          }
    by_flags true true o = refl
    by_flags true false o = refl
    by_flags false true o = refl
    by_flags false false o = refl

-- A Kernelfile that is parsed gives the Spec that its entries describe: each field has the value of
-- its key, or the one from before; the URL follows the version where only the version is given, and
-- the pin is dropped where the version or the URL is given without one.
pub parse_kernelfile-meaning :
    (file : Bytes) (s t : Spec) (es : Entries)
    → entries file ≡ ok es
    → parse_kernelfile file s ≡ ok t
    → t ≡ meaning es s
unfolding parse_kernelfile entries
parse_kernelfile-meaning file s t es r h =
    let (q, h₁, h₂) = >>=-eq-ok (parse_lines 1 (raw_lines file) (start s)) _ h in
    let same = IsSimilar-refl (start s) in
    let (q₁, k₁, a₁) = parse_lines-Leads 1 (raw_lines file) es (start s) q (start s) same r h₁ in
    let done : t ≡ finish q = ground arith in
    done
    ∙ finish-IsSimilar q q₁ a₁
    ∙ (unfold finish in ap finish (apply_all-overlay es (start s) q₁ k₁))
    ∙ finish-overlay es s
