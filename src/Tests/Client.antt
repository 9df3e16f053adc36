-- ===== src/Tests/Client.antt =====
-- The client's functions at concrete inputs.
use kernelbuild_buildkit.Common.{
  ◌≤◌, ◌≡◌, refl, ok, err, true, false, Bytes, codes, [], ◌∷◌, ◌++◌, length, last, break_at, Result,
}
use kernelbuild_buildkit.Client.{
  parse_cache_entry, s3_cache_url, s3_spec, add_credentials, region_or_auto, drop_slash,
  vertex_label, attr, CacheEntry, CacheError,
}
use kernelbuild_buildkit.Client.Cache.{s3_entry, parse_cache_entry-s3_cache_url}
use kernelbuild_buildkit.Client.Csv.{read_csv}
use kernelbuild_buildkit.Client.Label.{one_line, starts_line, vertex_label_bounds}

abbrev bucket_url : Bytes
bucket_url = codes "https://s3.example.com/cache/"

abbrev bucket_spec : Bytes
bucket_spec = s3_spec (codes "s3.example.com") (codes "cache") (codes "auto")

url_ok : s3_cache_url bucket_url [] ≡ ok bucket_spec
unfolding s3_cache_url break_at
url_ok = refl

parse_cache_entry-s3_cache_url_example :
    (host : Bytes) × (bucket : Bytes) × (drop_slash bucket_url (last bucket_url)
      ≡ codes "https://" ++ (host ++ b'/' ∷ bucket))
    × (parse_cache_entry bucket_spec (codes "key") (codes "secret")
        ≡ ok (
            add_credentials
              (codes "key")
              (codes "secret")
              (s3_entry host bucket (region_or_auto []))))
parse_cache_entry-s3_cache_url_example =
    parse_cache_entry-s3_cache_url bucket_url [] bucket_spec (codes "key") (codes "secret") url_ok
      refl

vertex_label_bounds_example :
    (length (vertex_label (codes "make\nall")) ≤ 103)
    × (starts_line (codes "make\nall") ≡ false → one_line (vertex_label (codes "make\nall")) ≡ true)
vertex_label_bounds_example = vertex_label_bounds (codes "make\nall")

label_of_script : vertex_label (codes "make\nall") ≡ codes "make ..."
unfolding vertex_label break_at
label_of_script = refl

-- A line feed at the front is no end of a line.
label_of_feed : vertex_label (codes "\nmake\nall") ≡ codes "\nmake\nall"
unfolding vertex_label break_at
label_of_feed = refl

abbrev attr_of : Bytes → Result CacheError CacheEntry → Bytes
attr_of k (err e) = []
attr_of k (ok e) = attr k e.attrs

abbrev spec_of : Result CacheError Bytes → Bytes
spec_of (err e) = []
spec_of (ok spec) = spec

-- A comma in the bucket's name ends the attribute, and what follows is one of its own.
bucket_with_comma :
    (attr_of
        (codes "bucket")
        (parse_cache_entry (spec_of (s3_cache_url (codes "https://h/b,name=n") [])) [] [])
      ≡ codes "b")
    × (attr_of
          (codes "name")
          (parse_cache_entry (spec_of (s3_cache_url (codes "https://h/b,name=n") [])) [] [])
        ≡ codes "n")
unfolding s3_cache_url parse_cache_entry attr break_at
bucket_with_comma = (refl, refl)

quoted_field : read_csv (codes "\"a,b=c\"\"d\",e\r\nf") ≡ ok (codes "a,b=c\"d" ∷ codes "e" ∷ [])
unfolding read_csv
quoted_field = refl
