-- ===== src/Client/Cache.antt =====
-- An entry that `S3CacheURL` writes is read back by `ParseCacheEntry`.
use kernelbuild_buildkit.Common.{
  ℕ, ◌==◌, Bool, true, false, not, ◌&&◌, ◌||◌, subst, List, [], ◌∷◌, ◌++◌, ◌≡◌, ◌∙◌, refl, ap, sym,
  arith, Option, none, some, Bytes, codes, cut, break_at, every, every_mono, every-append, reverse,
  append_assoc, join, if◌then◌else◌, is_empty, Bool-cases, inl, inr, Result, ok, err, has_prefix,
  drop, last, init, length, contains,
}
use mathlib.Core.List.{reverse-cons, append-nil}
use kernelbuild_buildkit.Client.{
  CacheEntry, parse_cache_entry, s3_cache_url, s3_spec, s3_of, region_re, region_or_auto,
  bad_bucket_url, add_credentials, set_fields, empty_entry, drop_slash,
}
use kernelbuild_buildkit.Client.Csv.{
  Place, before, plain, read_record, move, Move, go, end_field, end_record, fail, CsvError,
  cons_field, drop_returns, skip_lines, read_csv, read_first,
}
use kernelbuild_buildkit.Regex.{matches}
use kernelbuild_buildkit.Regex.Alphabet.{alphabet, matches-every}

-- A byte that has no meaning in CSV.
abbrev pub is_literal : ℕ → Bool
is_literal c = not (c == b',') && not (c == b'"') && not (c == b'\n') && not (c == b'\r')

abbrev pub IsLiteral : Bytes → Type 0
IsLiteral s = every is_literal s ≡ true

abbrev onto : Bytes → Bytes → Bytes
onto [] acc = acc
onto (c ∷ s) acc = onto s (c ∷ acc)

reverse-onto : (s acc : Bytes) → reverse (onto s acc) ≡ reverse acc ++ s
reverse-onto [] acc = sym (append-nil (reverse acc))
reverse-onto (c ∷ s) acc =
    reverse-onto s (c ∷ acc) ∙ (rw reverse-cons (append_assoc (reverse acc) (c ∷ []) s))

move_plain :
    (c : ℕ) (f : Bytes)
    → is_literal c ≡ true
    → (move plain f c ≡ go plain (c ∷ f)) × (move before f c ≡ go plain (c ∷ f))
unfolding move
move_plain c f h = (ground arith, ground arith)

abbrev moved : Move → Bytes → Result CsvError (List Bytes)
moved m s = elim m [
  | go q g ↦ read_record q g s
  | end_field g ↦ cons_field g (read_record before [] s)
  | end_record g ↦ ok (reverse g ∷ [])
  | fail e ↦ err e
]

read_record-cons :
    (p : Place) (f : Bytes) (c : ℕ) (s : Bytes) → read_record p f (c ∷ s) ≡ moved (move p f c) s
unfolding read_record
read_record-cons p f c s = refl

step_plain :
    (c : ℕ) (f s : Bytes)
    → is_literal c ≡ true
    → read_record plain f (c ∷ s) ≡ read_record plain (c ∷ f) s
step_plain c f s h = read_record-cons plain f c s ∙ ap (λ m. moved m s) (move_plain c f h).0

step_before :
    (c : ℕ) (s : Bytes)
    → is_literal c ≡ true
    → read_record before [] (c ∷ s) ≡ read_record plain (c ∷ []) s
step_before c s h = read_record-cons before [] c s ∙ ap (λ m. moved m s) (move_plain c [] h).1

read_plain :
    (s acc rest : Bytes)
    → IsLiteral s
    → read_record plain acc (s ++ b',' ∷ rest)
      ≡ cons_field (onto s acc) (read_record before [] rest)
unfolding read_record
read_plain [] acc rest h = refl
read_plain (c ∷ s) acc rest h =
    let k : IsLiteral s = ground arith in
    step_plain c acc (s ++ b',' ∷ rest) (ground arith) ∙ read_plain s (c ∷ acc) rest k

read_last : (s acc : Bytes) → IsLiteral s → read_record plain acc s ≡ ok (reverse (onto s acc) ∷ [])
unfolding read_record
read_last [] acc h = refl
read_last (c ∷ s) acc h =
    let k : IsLiteral s = ground arith in
    step_plain c acc s (ground arith) ∙ read_last s (c ∷ acc) k

abbrev is_field : Bytes → Bool
is_field s = not (is_empty s) && every is_literal s

read_join :
    (f : Bytes) (fs : List Bytes)
    → every is_field (f ∷ fs) ≡ true
    → read_record before [] (join (b',' ∷ []) (f ∷ fs)) ≡ ok (f ∷ fs)
unfolding read_record join
read_join [] fs h = cc
read_join (c ∷ s) [] h =
    let k : IsLiteral s = ground arith in
    step_before c s (ground arith)
    ∙ (read_last s (c ∷ []) k ∙ ap (λ (x : Bytes). ok (x ∷ [])) (reverse-onto s (c ∷ [])))
read_join (c ∷ s) (g ∷ gs) h =
    let k : IsLiteral s = ground arith in
    let ih = read_join g gs (ground arith) in
    step_before c (s ++ b',' ∷ join (b',' ∷ []) (g ∷ gs)) (ground arith)
    ∙ (read_plain s (c ∷ []) (join (b',' ∷ []) (g ∷ gs)) k
        ∙ ap (cons_field (onto s (c ∷ []))) ih
        ∙ ap (λ (x : Bytes). ok (x ∷ g ∷ gs)) (reverse-onto s (c ∷ [])))

abbrev no_return : Bytes → Bool
no_return = every (λ c. not (c == b'\r'))

drop_returns-same : (s : Bytes) → no_return s ≡ true → drop_returns s ≡ s
unfolding drop_returns
drop_returns-same [] h = refl
drop_returns-same (c ∷ []) h = ground arith
drop_returns-same (c ∷ d ∷ s) h = ground (arith, drop_returns-same (d ∷ s))

literal-no_return : (s : Bytes) → IsLiteral s → no_return s ≡ true
literal-no_return s h = every_mono is_literal (λ c. not (c == b'\r')) s (λ c g. ground arith) h

join-no_return :
    (fs : List Bytes) → every is_field fs ≡ true → no_return (join (b',' ∷ []) fs) ≡ true
unfolding join
join-no_return [] h = refl
join-no_return (f ∷ []) h = literal-no_return f (ground arith)
join-no_return (f ∷ g ∷ gs) h = ground (
  arith,
  literal-no_return f,
  join-no_return (g ∷ gs),
  every-append (λ c. not (c == b'\r')) f (b',' ∷ join (b',' ∷ []) (g ∷ gs)),
)

first-same :
    (f : Bytes) (fs : List Bytes)
    → is_field f ≡ true
    → read_first (skip_lines (join (b',' ∷ []) (f ∷ fs)))
      ≡ read_record before [] (join (b',' ∷ []) (f ∷ fs))
unfolding join skip_lines
first-same [] fs h = cc
first-same (c ∷ s) [] h = let e : (c == b'\n') ≡ false = ground arith in rw e refl
first-same (c ∷ s) (g ∷ gs) h = let e : (c == b'\n') ≡ false = ground arith in rw e refl

-- Fields without meaning in CSV, joined by commas, are read back.
read_csv-join :
    (f : Bytes) (fs : List Bytes)
    → every is_field (f ∷ fs) ≡ true
    → read_csv (join (b',' ∷ []) (f ∷ fs)) ≡ ok (f ∷ fs)
unfolding read_csv
read_csv-join f fs h =
    rw (drop_returns-same (join (b',' ∷ []) (f ∷ fs)) (join-no_return (f ∷ fs) h))
      (first-same f fs (ground arith) ∙ read_join f fs h)

abbrev s3_rest : Bytes → Bytes → Bytes → List Bytes
s3_rest host bucket region =
    (codes "bucket=" ++ bucket)
    ∷ (codes "region=" ++ region)
    ∷ codes "prefix=kbuild-vertex/"
    ∷ (codes "endpoint_url=https://" ++ host)
    ∷ codes "use_path_style=true"
    ∷ codes "mode=max"
    ∷ []

s3_spec-join :
    (host bucket region : Bytes)
    → s3_spec host bucket region ≡ join (b',' ∷ []) (codes "type=s3" ∷ s3_rest host bucket region)
unfolding s3_spec join
s3_spec-join host bucket region = refl

-- The entry that an s3 cache is meant to have.
abbrev pub s3_entry : Bytes → Bytes → Bytes → CacheEntry
s3_entry host bucket region = record {
  kind = codes "s3";
  attrs =
      (codes "bucket", bucket)
      ∷ (codes "region", region)
      ∷ (codes "prefix", codes "kbuild-vertex/")
      ∷ (codes "endpoint_url", codes "https://" ++ host)
      ∷ (codes "use_path_style", codes "true")
      ∷ (codes "mode", codes "max")
      ∷ [];
}

set_fields-s3 :
    (host bucket region : Bytes)
    → set_fields (codes "type=s3" ∷ s3_rest host bucket region) empty_entry
      ≡ ok (s3_entry host bucket region)
unfolding set_fields break_at
set_fields-s3 host bucket region = refl

parse-s3_spec :
    (host bucket region ak sk : Bytes)
    → IsLiteral host
    → IsLiteral bucket
    → IsLiteral region
    → parse_cache_entry (s3_spec host bucket region) ak sk
      ≡ ok (add_credentials ak sk (s3_entry host bucket region))
unfolding parse_cache_entry
parse-s3_spec host bucket region ak sk h b r =
    let f : every is_field (codes "type=s3" ∷ s3_rest host bucket region) ≡ true =
      rw (b, r, h) refl in
    rw
      (
        s3_spec-join host bucket region,
        read_csv-join (codes "type=s3") (s3_rest host bucket region) f,
        set_fields-s3 host bucket region,
      )
      refl

has_prefix-append : (s p : Bytes) → has_prefix s p ≡ true → s ≡ p ++ drop (length p) s
unfolding has_prefix
has_prefix-append s [] h = refl
has_prefix-append [] (d ∷ p) h = cc
has_prefix-append (c ∷ s) (d ∷ p) h = ground (arith, has_prefix-append s p)

cut-some : (b : ℕ) (s v : Bytes) → (cut b s).1 ≡ some v → s ≡ (cut b s).0 ++ b ∷ v
unfolding break_at
cut-some b [] v h = cc
cut-some b (c ∷ s) v h = ground (arith, cut-some b s v)

init-IsLiteral : (s : Bytes) → IsLiteral s → IsLiteral (init s)
init-IsLiteral [] h = refl
init-IsLiteral (c ∷ []) h = refl
init-IsLiteral (c ∷ d ∷ s) h = ground (arith, init-IsLiteral (d ∷ s))

drop_slash-IsLiteral : (s : Bytes) (o : Option ℕ) → IsLiteral s → IsLiteral (drop_slash s o)
drop_slash-IsLiteral s none h = h
drop_slash-IsLiteral s (some c) h = ground (arith, init-IsLiteral s h)

region_re-IsLiteral : (x : ℕ) → alphabet region_re x ≡ true → is_literal x ≡ true
unfolding alphabet region_re
region_re-IsLiteral x e = ground arith

region-IsLiteral : (r : Bytes) → matches region_re r ≡ true → IsLiteral r
region-IsLiteral r h = matches-every region_re is_literal r region_re-IsLiteral h

IsLiteral-parts :
    (host bucket : Bytes)
    → IsLiteral (codes "https://" ++ (host ++ b'/' ∷ bucket))
    → IsLiteral host × IsLiteral bucket
IsLiteral-parts host bucket h =
    let e = every-append is_literal host (b'/' ∷ bucket) in (ground arith, ground arith)

s3_of-ok :
    (url region host bucket spec : Bytes)
    → s3_of url region (host, some bucket) ≡ ok spec
    → (matches region_re (region_or_auto region) ≡ true)
      × (s3_spec host bucket (region_or_auto region) ≡ spec)
s3_of-ok url region host bucket spec h =
    elim (Bool-cases (is_empty bucket || contains bucket (codes "/"))) [
      | inl e ↦ absurd (ground arith)
      | inr e ↦ elim (Bool-cases (matches region_re (region_or_auto region))) [
        | inl g ↦ (g, ground arith)
        | inr g ↦ absurd (ground arith)
      ]
    ]

-- The parts of an address without a byte that has a meaning in CSV: what `S3CacheURL` makes of it is read
-- back by `ParseCacheEntry` as the s3 cache of this host, this bucket and this region, with the
-- credentials where there are some. The address is https://, the host, a slash and the bucket, and a
-- slash at its end does not matter.
pub parse_cache_entry-s3_cache_url :
    (url region spec ak sk : Bytes)
    → s3_cache_url url region ≡ ok spec
    → IsLiteral url
    → (host : Bytes) × (bucket : Bytes) × (drop_slash url (last url)
        ≡ codes "https://" ++ (host ++ b'/' ∷ bucket))
      × (parse_cache_entry spec ak sk
          ≡ ok (add_credentials ak sk (s3_entry host bucket (region_or_auto region))))
unfolding s3_cache_url
parse_cache_entry-s3_cache_url url region spec ak sk h lit =
    by_prefix (has_prefix trimmed (codes "https://")) refl h
  where
    trimmed : Bytes
    trimmed = drop_slash url (last url)

    rest : Bytes
    rest = drop 8 trimmed

    by_cut :
        (o : Option Bytes)
        → (cut b'/' rest).1 ≡ o
        → trimmed ≡ codes "https://" ++ rest
        → s3_of url region ((cut b'/' rest).0, o) ≡ ok spec
        → (host : Bytes) × (bucket : Bytes) × (trimmed
            ≡ codes "https://" ++ (host ++ b'/' ∷ bucket))
          × (parse_cache_entry spec ak sk
              ≡ ok (add_credentials ak sk (s3_entry host bucket (region_or_auto region))))
    by_cut none e t k = cc
    by_cut (some bucket) e t k =
        let host = (cut b'/' rest).0 in
        let (r, g) = s3_of-ok url region host bucket spec k in
        let whole : rest ≡ host ++ b'/' ∷ bucket = cut-some b'/' rest bucket e in
        let l : IsLiteral (codes "https://" ++ (host ++ b'/' ∷ bucket)) =
          subst IsLiteral (t ∙ ap (λ x. codes "https://" ++ x) whole)
            (drop_slash-IsLiteral url (last url) lit) in
        let (hl, bl) = IsLiteral-parts host bucket l in
        (
          host,
          bucket,
          t ∙ ap (λ x. codes "https://" ++ x) whole,
          subst
              (λ x.
                parse_cache_entry x ak sk
                ≡ ok (add_credentials ak sk (s3_entry host bucket (region_or_auto region))))
              g
              (parse-s3_spec host bucket (region_or_auto region) ak sk hl bl
                (region-IsLiteral (region_or_auto region) r)),
        )

    by_prefix :
        (p : Bool)
        → has_prefix trimmed (codes "https://") ≡ p
        → (if p then s3_of url region (cut b'/' rest) else err (bad_bucket_url url)) ≡ ok spec
        → (host : Bytes) × (bucket : Bytes) × (trimmed
            ≡ codes "https://" ++ (host ++ b'/' ∷ bucket))
          × (parse_cache_entry spec ak sk
              ≡ ok (add_credentials ak sk (s3_entry host bucket (region_or_auto region))))
    by_prefix false e k = cc
    by_prefix true e k =
        by_cut (cut b'/' rest).1 refl (has_prefix-append trimmed (codes "https://") e) k
