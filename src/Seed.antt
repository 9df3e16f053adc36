-- ===== src/Seed.antt =====
-- The seed's settings on both sides: `SeedCfg` (llb.go), which the client passes as a secret, and
-- `loadSeedCfg` (cmd/kbuild-step/main.go), which the step reads it back with. SHA-256 is a
-- parameter, since only its size matters here.
pub mod Contract
use kernelbuild_buildkit.Common.{
  ℕ, Bool, true, false, List, [], ◌∷◌, ◌++◌, if◌then◌else◌, Option, none, some, Bytes, codes, beq,
  is_empty, take, split, break_at, cut, trim_space, hex, ◌||◌,
}
use kernelbuild_buildkit.Spec.{Spec, arch_or_default, cross_or_default, patched_suffix}

module _ (sum256 : Bytes → Bytes) where
  -- `toolchainHash`
  unfoldable pub toolchain_hash : Spec → Bytes
  unfolding cross_or_default
  toolchain_hash s =
      let mode = if s.toolchain_ready then codes "ready" else codes "apt" in
      sum256 (s.base ++ (0 ∷ (cross_or_default s ++ (0 ∷ mode))))

  -- `%.8x`: the hex digits of the first eight bytes.
  unfoldable pub short_hash : Spec → Bytes
  unfolding toolchain_hash hex
  short_hash s = hex (take 8 (toolchain_hash s))

  -- `linux-%s-%s-%.8x%s`: what names a tree, in the seed's key and in the cache mount's id.
  unfoldable pub tree_name : Spec → Bytes
  unfolding arch_or_default short_hash patched_suffix
  tree_name s =
      s.kernel_version
      ++ (b'-' ∷ (arch_or_default s ++ (b'-' ∷ (short_hash s ++ patched_suffix s))))

  unfoldable pub seed_key : Spec → Bytes
  unfolding tree_name
  seed_key s = s.seed_prefix ++ (codes "/linux-" ++ (tree_name s ++ codes ".tzst"))

  unfoldable pub region_or_auto : Spec → Bytes
  region_or_auto s = if is_empty s.seed_region then codes "auto" else s.seed_region

  abbrev pub push_flag : Spec → Bytes
  push_flag s = if s.seed_push then codes "1" else codes "0"

  unfoldable pub seed_text : Spec → Bytes
  unfolding seed_key region_or_auto
  seed_text s =
      codes "SEED_URL="
      ++ (s.seed_url
          ++ (b'\n'
              ∷ (codes "SEED_KEY="
                  ++ (seed_key s
                      ++ (b'\n'
                          ∷ (codes "SEED_REGION="
                              ++ (region_or_auto s
                                  ++ (b'\n'
                                      ∷ (codes "SEED_PUSH="
                                          ++ (push_flag s ++ (b'\n' ∷ [])))))))))))

  -- `SeedCfg`; `none` is nil, no seeding.
  unfoldable pub seed_cfg : Spec → Option Bytes
  unfolding seed_text
  seed_cfg s = if is_empty s.seed_url then none else some (seed_text s)

-- `seedCfg`
pub record SeedConfig : Type 0 where
  pub url : Bytes
  pub key : Bytes
  pub region : Bytes
  pub push : Bool

-- The files under /run/secrets; `none` is a file that is not there.
pub record Secrets : Type 0 where
  pub seed_cfg_file : Option Bytes
  pub access_key : Option Bytes
  pub secret_key : Option Bytes

abbrev pub value_of : Option Bytes → Bytes
value_of none = []
value_of (some v) = v

-- The switch on the key of a line.
unfoldable pub read_pair : Bytes → Bytes → SeedConfig → SeedConfig
unfolding beq
read_pair k v c =
    if beq k (codes "SEED_URL")
    then record c { url = v }
    else if beq k (codes "SEED_KEY")
    then record c { key = v }
    else if beq k (codes "SEED_REGION")
    then record c { region = v }
    else if beq k (codes "SEED_PUSH")
    then record c { push = beq v (codes "1") }
    else c

unfoldable pub read_seed_line : Bytes → SeedConfig → SeedConfig
unfolding break_at trim_space read_pair
read_seed_line line c = let (k, v) = cut b'=' (trim_space line) in read_pair k (value_of v) c

unfoldable pub read_seed_lines : List Bytes → SeedConfig → SeedConfig
unfolding read_seed_line
read_seed_lines [] c = c
read_seed_lines (l ∷ ls) c = read_seed_lines ls (read_seed_line l c)

abbrev pub no_seed : SeedConfig
no_seed = record { url = []; key = []; region = []; push = false }

abbrev is_there : Option Bytes → Bool
is_there none = false
is_there (some f) = true

-- The tests behind the loop: an address, and both credentials, or no seeding.
unfoldable pub usable : Secrets → SeedConfig → Option SeedConfig
usable files c =
    if is_empty c.url || is_empty c.key
    then none
    else if is_there files.access_key
    then (if is_there files.secret_key then some c else none)
    else none

-- `loadSeedCfg`
unfoldable pub load_seed_cfg : Secrets → Option SeedConfig
unfolding split read_seed_lines usable
load_seed_cfg files = elim files.seed_cfg_file [
  | none ↦ none
  | some raw ↦ usable files (read_seed_lines (split b'\n' raw) no_seed)
]

pub data PushError : Type 0 where
  secrets_missing : PushError
  push_switched_off : PushError

-- `checkSeedPush`, with the value of the variable SEED_PUSH.
unfoldable pub check_seed_push : Bytes → Option SeedConfig → Option PushError
unfolding beq
check_seed_push env seed =
    if beq env (codes "1")
    then elim seed [
      | none ↦ some secrets_missing
      | some c ↦ if c.push then none else some push_switched_off
    ]
    else none
