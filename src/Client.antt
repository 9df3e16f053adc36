-- ===== src/Client.antt =====
-- The parts of client.go that do not talk to the daemon: `ParseCacheEntry`, `S3CacheURL`, `VertexLabel`.
pub mod Csv
pub mod Cache
pub mod Label
use kernelbuild_buildkit.Common.{
  ℕ, ◌==◌, ltb, Bool, true, false, not, ◌&&◌, ◌||◌, List, [], ◌∷◌, ◌++◌, if◌then◌else◌, Option,
  none, some, Bytes, codes, beq, is_empty, has_prefix, cut, contains, drop, take, length, last,
  init, Result, ok, err, ◌>>=◌,
}
use kernelbuild_buildkit.Client.Csv.{CsvError, read_csv}
use kernelbuild_buildkit.Regex.{Regex, class, plus, matches}
use kernelbuild_buildkit.Spec.Patterns.{is_name_byte}

-- client.CacheOptionsEntry; the map of attributes is a list of pairs.
pub record CacheEntry : Type 0 where
  pub kind : Bytes
  pub attrs : List (Bytes × Bytes)

pub data CacheError : Type 0 where
  bad_csv : CsvError → CacheError
  not_key_value : Bytes → CacheError
  missing_type : CacheError
  bad_bucket_url : Bytes → CacheError
  bad_region : Bytes → CacheError

-- `entry.Attrs[k] = v`
unfoldable pub set_attr : Bytes → Bytes → List (Bytes × Bytes) → List (Bytes × Bytes)
unfolding beq
set_attr k v [] = (k, v) ∷ []
set_attr k v ((j, w) ∷ m) = if beq j k then (j, v) ∷ m else (j, w) ∷ set_attr k v m

-- `entry.Attrs[k]`, empty where there is none.
unfoldable pub attr : Bytes → List (Bytes × Bytes) → Bytes
unfolding beq
attr k [] = []
attr k ((j, w) ∷ m) = if beq j k then w else attr k m

abbrev pub set_pair : Bytes × Option Bytes → Bytes → CacheEntry → Result CacheError CacheEntry
set_pair (k, none) kv e = err (not_key_value kv)
set_pair (k, some v) kv e =
    if beq k (codes "type")
    then ok (record e { kind = v })
    else ok (record e { attrs = set_attr k v e.attrs })

-- The loop over the fields.
unfoldable pub set_fields : List Bytes → CacheEntry → Result CacheError CacheEntry
unfolding beq set_attr
set_fields [] e = ok e
set_fields (kv ∷ rest) e = do e' ← set_pair (cut b'=' kv) kv e; set_fields rest e'

-- The credentials for an s3 cache that brings none.
unfoldable pub add_credentials : Bytes → Bytes → CacheEntry → CacheEntry
unfolding beq attr set_attr
add_credentials ak sk e =
    if beq e.kind (codes "s3")
      && is_empty (attr (codes "access_key_id") e.attrs)
      && not (is_empty ak)
    then record e {
      attrs = set_attr (codes "secret_access_key") sk (set_attr (codes "access_key_id") ak e.attrs);
    }
    else e

abbrev pub csv_result : Result CsvError (List Bytes) → Result CacheError (List Bytes)
csv_result (err e) = err (bad_csv e)
csv_result (ok fs) = ok fs

abbrev pub empty_entry : CacheEntry
empty_entry = record { kind = []; attrs = [] }

abbrev pub with_credentials : Bytes → Bytes → CacheEntry → Result CacheError CacheEntry
with_credentials ak sk e =
    if is_empty e.kind then err missing_type else ok (add_credentials ak sk e)

-- `ParseCacheEntry`
unfoldable pub parse_cache_entry : Bytes → Bytes → Bytes → Result CacheError CacheEntry
unfolding read_csv set_fields add_credentials
parse_cache_entry spec ak sk = do
  fields ← csv_result (read_csv spec)
  e ← set_fields fields empty_entry
  with_credentials ak sk e

-- `regionRe`
unfoldable pub region_re : Regex
region_re = plus (class is_name_byte)

-- strings.TrimSuffix(s, "/")
abbrev pub drop_slash : Bytes → Option ℕ → Bytes
drop_slash s none = s
drop_slash s (some c) = if c == b'/' then init s else s

abbrev pub region_or_auto : Bytes → Bytes
region_or_auto region = if is_empty region then codes "auto" else region

-- The entry in buildctl's syntax.
unfoldable pub s3_spec : Bytes → Bytes → Bytes → Bytes
s3_spec host bucket region =
    codes "type=s3,bucket="
    ++ (bucket
        ++ (codes ",region="
            ++ (region
                ++ (codes ",prefix=kbuild-vertex/,endpoint_url=https://"
                    ++ (host ++ codes ",use_path_style=true,mode=max")))))

abbrev pub s3_of : Bytes → Bytes → Bytes × Option Bytes → Result CacheError Bytes
s3_of url region (host, none) = err (bad_bucket_url url)
s3_of url region (host, some bucket) =
    if is_empty bucket || contains bucket (codes "/")
    then err (bad_bucket_url url)
    else if not (matches region_re (region_or_auto region))
    then err (bad_region (region_or_auto region))
    else ok (s3_spec host bucket (region_or_auto region))

-- `S3CacheURL`
unfoldable pub s3_cache_url : Bytes → Bytes → Result CacheError Bytes
unfolding has_prefix contains matches region_re s3_spec
s3_cache_url url region =
    let trimmed = drop_slash url (last url) in
    if has_prefix trimmed (codes "https://")
    then s3_of url region (cut b'/' (drop 8 trimmed))
    else err (bad_bucket_url url)

abbrev pub shorten : Bytes → Bytes
shorten name = if ltb 100 (length name) then take 100 name ++ codes "..." else name

-- What stands before a line feed that is not the first byte, and the dots for the rest.
abbrev pub first_line : Bytes → Bytes × Option Bytes → Bytes
first_line name (line, none) = name
first_line name (line, some rest) = if is_empty line then name else line ++ codes " ..."

-- `VertexLabel`
unfoldable pub vertex_label : Bytes → Bytes
vertex_label name = shorten (first_line name (cut b'\n' name))
