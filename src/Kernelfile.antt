-- ===== src/Kernelfile.antt =====
-- step.go: `ParseKernelfile`, on the bytes of the file (its caller hands it a bytes.Reader, whose
-- reads do not fail). The Spec behind the pointer is a value here: the caller drops it on an error.
pub mod Order
pub mod Lines
pub mod Similar
pub mod Meaning
use kernelbuild_buildkit.Common.{
  ℕ, ◌+◌, Bool, true, false, not, ◌&&◌, ◌||◌, List, [], ◌∷◌, ◌==◌, leb, length, if◌then◌else◌,
  Option, none, some, Bytes, codes, beq, is_empty, last, init, break_at, cut, cons_first,
  trim_space, trim_prefix, fields_func, Result, ok, err, ◌>>=◌, ◌>>◌, reject,
}
use kernelbuild_buildkit.Spec.{Spec}
use kernelbuild_buildkit.Spec.Source.{source_url_for}

-- The errors, with the line and the text that their messages quote.
pub data KernelfileError : Type 0 where
  want_key_value : ℕ → Bytes → KernelfileError
  duplicate_key : ℕ → Bytes → ℕ → KernelfileError
  bad_patches : ℕ → Bytes → KernelfileError
  no_target : ℕ → KernelfileError
  bad_toolchain : ℕ → Bytes → KernelfileError
  unknown_key : ℕ → Bytes → KernelfileError
  line_too_long : KernelfileError

-- The keys, one for each case of the switch.
pub data Key : Type 0 where
  kernel source_url sha256 epoch config expect base_make patches arch cross_compile : Key
  targets proxy_ca base toolchain : Key

-- The variables of the loop, and the Spec behind the pointer.
pub record Parser : Type 0 where
  pub spec : Spec
  pub saw_kernel : Bool
  pub saw_url : Bool
  pub saw_sha : Bool
  pub seen : List (Bytes × ℕ)

unfoldable pub key_of : Bytes → Option Key
unfolding beq
key_of s =
    if beq s (codes "KERNEL")
    then some kernel
    else if beq s (codes "SOURCE_URL")
    then some source_url
    else if beq s (codes "SHA256")
    then some sha256
    else if beq s (codes "EPOCH")
    then some epoch
    else if beq s (codes "CONFIG")
    then some config
    else if beq s (codes "EXPECT")
    then some expect
    else if beq s (codes "BASE_MAKE")
    then some base_make
    else if beq s (codes "PATCHES")
    then some patches
    else if beq s (codes "ARCH")
    then some arch
    else if beq s (codes "CROSS_COMPILE")
    then some cross_compile
    else if beq s (codes "TARGETS")
    then some targets
    else if beq s (codes "PROXY_CA")
    then some proxy_ca
    else if beq s (codes "BASE")
    then some base
    else if beq s (codes "TOOLCHAIN")
    then some toolchain
    else none

-- `seen[key]`
unfoldable pub seen_on : Bytes → List (Bytes × ℕ) → Option ℕ
unfolding beq
seen_on key [] = none
seen_on key ((k, n) ∷ seen) = if beq key k then some n else seen_on key seen

-- A key whose value is one of two words.
abbrev pub two_words : Bytes → Bytes → Bytes → Option Bool
unfolding beq
two_words yes_word no_word val =
    if beq val yes_word then some true else if beq val no_word then some false else none

abbrev pub is_target_separator : ℕ → Bool
is_target_separator c = c == 32 || c == 9 || c == b','

abbrev pub or_error {ℓ} : {A : Type ℓ} → Option A → KernelfileError → Result KernelfileError A
or_error none e = err e
or_error (some a) e = ok a

abbrev pub some_words : List Bytes → Option (List Bytes)
some_words [] = none
some_words (w ∷ ws) = some (w ∷ ws)

abbrev with_spec : Parser → Spec → Parser
with_spec p s = record p { spec = s }

-- The cases of the switch.
unfoldable pub set_key : Key → ℕ → Bytes → Parser → Result KernelfileError Parser
unfolding beq fields_func
set_key kernel line val p =
    ok (record p { spec = record (p.spec) { kernel_version = val }; saw_kernel = true })
set_key source_url line val p =
    ok (record p { spec = record (p.spec) { source_url = val }; saw_url = true })
set_key sha256 line val p =
    ok (record p { spec = record (p.spec) { source_sha256 = val }; saw_sha = true })
set_key epoch line val p = ok (with_spec p (record (p.spec) { source_date_epoch = val }))
set_key config line val p = ok (with_spec p (record (p.spec) { config_name = val }))
set_key expect line val p = ok (with_spec p (record (p.spec) { expect_name = val }))
set_key base_make line val p = ok (with_spec p (record (p.spec) { base_make = val }))
set_key patches line val p = do
  on ← or_error (two_words (codes "on") (codes "off") val) (bad_patches line val)
  ok (with_spec p (record (p.spec) { apply_patches = on }))
set_key arch line val p = ok (with_spec p (record (p.spec) { arch = val }))
set_key cross_compile line val p = ok (with_spec p (record (p.spec) { cross_compile = val }))
set_key targets line val p = do
  tgts ← or_error (some_words (fields_func is_target_separator val)) (no_target line)
  ok (with_spec p (record (p.spec) { targets = tgts }))
set_key proxy_ca line val p = ok (with_spec p (record (p.spec) { proxy_ca_file = val }))
set_key base line val p = ok (with_spec p (record (p.spec) { base = val }))
set_key toolchain line val p = do
  ready ← or_error (two_words (codes "ready") (codes "apt") val) (bad_toolchain line val)
  ok (with_spec p (record (p.spec) { toolchain_ready = ready }))

-- One KEY VALUE entry: the duplicate check, the note of the line, and the switch.
unfoldable pub apply_entry : ℕ → Bytes → Bytes → Parser → Result KernelfileError Parser
unfolding seen_on key_of set_key
apply_entry line key val p = elim (seen_on key p.seen) [
  | some first ↦ err (duplicate_key line key first)
  | none ↦ elim (key_of key) [
    | none ↦ err (unknown_key line key)
    | some k ↦ set_key k line val (record p { seen = (key, line) ∷ p.seen })
  ]
]

-- A trailing comment: the first '#', if it opens the line or follows a space or a tab.
unfoldable pub strip_comment : Bytes → Bytes
unfolding break_at
strip_comment t =
    let (before, after) = cut b'#' t in
    elim after [
      | none ↦ t
      | some _ ↦ elim (last before) [
        | none ↦ before
        | some c ↦ if c == 32 || c == 9 then before else t
      ]
    ]

abbrev is_blank : ℕ → Bool
is_blank c = c == 32 || c == 9

-- The text of a line as a key and its value; `none` for a blank line.
unfoldable pub read_line : ℕ → Bytes → Result KernelfileError (Option (Bytes × Bytes))
unfolding trim_prefix strip_comment trim_space break_at
read_line line text =
    let marked = if line == 1 then trim_prefix text (0xef ∷ 0xbb ∷ 0xbf ∷ []) else text in
    let t = trim_space (strip_comment marked) in
    let (key, rest) = break_at is_blank t in
    if is_empty t then ok none else elim rest [
      | none ↦ err (want_key_value line t)
      | some r ↦
          if is_empty (trim_space r)
          then err (want_key_value line t)
          else ok (some (key, trim_space r))
    ]

-- `continue` at a blank line.
abbrev pub apply_option : ℕ → Option (Bytes × Bytes) → Parser → Result KernelfileError Parser
apply_option line none p = ok p
apply_option line (some (key, val)) p = apply_entry line key val p

-- The body of the loop.
unfoldable pub parse_line : ℕ → Bytes → Parser → Result KernelfileError Parser
unfolding read_line apply_entry
parse_line line text p = do entry ← read_line line text; apply_option line entry p

-- bufio.ScanLines: the last line may lack its newline, and a final carriage return is dropped.
unfoldable pub raw_lines : Bytes → List Bytes
raw_lines [] = []
raw_lines (c ∷ s) = let ls = raw_lines s in if c == b'\n' then [] ∷ ls else cons_first c ls

abbrev pub drop_return : Bytes → Bytes
drop_return s = elim (last s) [ none ↦ s | some c ↦ if c == b'\r' then init s else s ]

-- bufio.MaxScanTokenSize: a line that fills the scanner's buffer stops it with an error.
abbrev pub max_line : ℕ
max_line = 65536

unfoldable pub parse_lines : ℕ → List Bytes → Parser → Result KernelfileError Parser
unfolding parse_line
parse_lines line [] p = ok p
parse_lines line (l ∷ ls) p = do
  reject (leb max_line (length l)) line_too_long
  q ← parse_line line (drop_return l) p
  parse_lines (line + 1) ls q

-- What is decided after the last line: the URL of the version, and the pin.
unfoldable pub finish : Parser → Spec
unfolding source_url_for
finish p =
    let s = p.spec in
    let derived =
      if p.saw_kernel && not p.saw_url
      then record s { source_url = source_url_for s.kernel_version }
      else s in
    if (p.saw_kernel || p.saw_url) && not p.saw_sha
    then record derived { source_sha256 = [] }
    else derived

abbrev pub start : Spec → Parser
start s = record { spec = s; saw_kernel = false; saw_url = false; saw_sha = false; seen = [] }

-- `ParseKernelfile`
unfoldable pub parse_kernelfile : Bytes → Spec → Result KernelfileError Spec
unfolding raw_lines parse_lines finish
parse_kernelfile file s = do p ← parse_lines 1 (raw_lines file) (start s); ok (finish p)
