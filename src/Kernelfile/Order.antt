-- ===== src/Kernelfile/Order.antt =====
-- What an entry of a Kernelfile changes, and that entries of different keys commute.
use kernelbuild_buildkit.Common.{
  ℕ, Bool, true, false, List, [], ◌∷◌, ◌≡◌, ◌≢◌, refl, arith, Option, none, some, if◌then◌else◌,
  Bytes, codes, beq, beq_iff, fields_func, ok,
}
use kernelbuild_buildkit.Kernelfile.{
  Key, kernel, source_url, sha256, epoch, config, expect, base_make, patches, arch, cross_compile,
  targets, proxy_ca, base, toolchain, Parser, key_of, two_words, is_target_separator, some_words,
  or_error, set_key, KernelfileError,
}

abbrev pub is_some {ℓ} : {A : Type ℓ} → Option A → Bool
is_some none = false
is_some (some a) = true

-- The values that a key takes.
unfoldable pub accepted : Key → Bytes → Bool
accepted patches v = is_some (two_words (codes "on") (codes "off") v)
accepted toolchain v = is_some (two_words (codes "ready") (codes "apt") v)
accepted targets v = is_some (some_words (fields_func is_target_separator v))
accepted _ v = true

-- The change that an accepted value makes.
unfoldable pub assign : Key → Bytes → Parser → Parser
assign kernel v p = record p { spec = record (p.spec) { kernel_version = v }; saw_kernel = true }
assign source_url v p = record p { spec = record (p.spec) { source_url = v }; saw_url = true }
assign sha256 v p = record p { spec = record (p.spec) { source_sha256 = v }; saw_sha = true }
assign epoch v p = record p { spec = record (p.spec) { source_date_epoch = v } }
assign config v p = record p { spec = record (p.spec) { config_name = v } }
assign expect v p = record p { spec = record (p.spec) { expect_name = v } }
assign base_make v p = record p { spec = record (p.spec) { base_make = v } }
assign patches v p = record p { spec = record (p.spec) { apply_patches = beq v (codes "on") } }
assign arch v p = record p { spec = record (p.spec) { arch = v } }
assign cross_compile v p = record p { spec = record (p.spec) { cross_compile = v } }
assign targets v p = record p {
  spec = record (p.spec) { targets = fields_func is_target_separator v };
}
assign proxy_ca v p = record p { spec = record (p.spec) { proxy_ca_file = v } }
assign base v p = record p { spec = record (p.spec) { base = v } }
assign toolchain v p = record p {
  spec = record (p.spec) { toolchain_ready = beq v (codes "ready") };
}

or_error-some {ℓ} :
    {A : Type ℓ} (o : Option A) (e : KernelfileError) {a : A} → or_error o e ≡ ok a → o ≡ some a
or_error-some none e h = cc
or_error-some (some a) e h = cc

pub set_key-eq-ok :
    (k : Key) (n : ℕ) (v : Bytes) (p : Parser) {q : Parser}
    → set_key k n v p ≡ ok q
    → (accepted k v ≡ true) × (q ≡ assign k v p)
unfolding set_key accepted assign
set_key-eq-ok patches n v p h = ground arith
set_key-eq-ok toolchain n v p h = ground arith
set_key-eq-ok targets n v p h = ground arith
set_key-eq-ok _ n v p h = ground arith

pub set_key-accepted :
    (k : Key) (n : ℕ) (v : Bytes) (p : Parser)
    → accepted k v ≡ true
    → set_key k n v p ≡ ok (assign k v p)
unfolding set_key accepted assign
set_key-accepted patches n v p h = ground arith
set_key-accepted toolchain n v p h = ground arith
set_key-accepted targets n v p h = ground arith
set_key-accepted _ n v p h = ground arith

pub assign_comm :
    (j k : Key) (v w : Bytes) (p : Parser)
    → j ≢ k
    → assign j v (assign k w p) ≡ assign k w (assign j v p)
unfolding assign
assign_comm kernel kernel v w p h = absurd (h refl)
assign_comm source_url source_url v w p h = absurd (h refl)
assign_comm sha256 sha256 v w p h = absurd (h refl)
assign_comm epoch epoch v w p h = absurd (h refl)
assign_comm config config v w p h = absurd (h refl)
assign_comm expect expect v w p h = absurd (h refl)
assign_comm base_make base_make v w p h = absurd (h refl)
assign_comm patches patches v w p h = absurd (h refl)
assign_comm arch arch v w p h = absurd (h refl)
assign_comm cross_compile cross_compile v w p h = absurd (h refl)
assign_comm targets targets v w p h = absurd (h refl)
assign_comm proxy_ca proxy_ca v w p h = absurd (h refl)
assign_comm base base v w p h = absurd (h refl)
assign_comm toolchain toolchain v w p h = absurd (h refl)
assign_comm _ _ v w p h = refl

unfoldable pub key_name : Key → Bytes
key_name kernel = codes "KERNEL"
key_name source_url = codes "SOURCE_URL"
key_name sha256 = codes "SHA256"
key_name epoch = codes "EPOCH"
key_name config = codes "CONFIG"
key_name expect = codes "EXPECT"
key_name base_make = codes "BASE_MAKE"
key_name patches = codes "PATCHES"
key_name arch = codes "ARCH"
key_name cross_compile = codes "CROSS_COMPILE"
key_name targets = codes "TARGETS"
key_name proxy_ca = codes "PROXY_CA"
key_name base = codes "BASE"
key_name toolchain = codes "TOOLCHAIN"

first_key : List Key → Bytes → Option Key
first_key [] s = none
first_key (k ∷ ks) s = if beq s (key_name k) then some k else first_key ks s

abbrev all_keys : List Key
all_keys =
    kernel ∷ source_url ∷ sha256 ∷ epoch ∷ config ∷ expect ∷ base_make ∷ patches ∷ arch
    ∷ cross_compile ∷ targets ∷ proxy_ca ∷ base ∷ toolchain ∷ []

first_key-name : (ks : List Key) (s : Bytes) (k : Key) → first_key ks s ≡ some k → s ≡ key_name k
unfolding first_key
first_key-name [] s k h = cc
first_key-name (j ∷ ks) s k h = ground (arith, beq_iff s (key_name j), first_key-name ks s k)

pub key_of-name : (s : Bytes) (k : Key) → key_of s ≡ some k → s ≡ key_name k
key_of-name s k h = first_key-name all_keys s k (unfold key_of first_key key_name in h)
