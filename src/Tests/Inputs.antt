-- ===== src/Tests/Inputs.antt =====
-- The Spec, the Kernelfile, the options, the graph and the settings that the runner reads, at
-- concrete inputs.
use mathlib.Core.List.Permᴰ.{swap}
use kernelbuild_buildkit.Common.{
  ◌≡◌, refl, ok, codes, true, false, some, none, Bytes, [], ◌∷◌, Option, every, is_empty, split,
  beq, member, ◌↔◌, join, if◌then◌else◌,
}
use kernelbuild_buildkit.Frontend.{Opts, Platform, apply_opts}
use kernelbuild_buildkit.Frontend.Build.{Gateway, solve, build}
use kernelbuild_buildkit.Frontend.Layers.{IsBuilt, build-IsBuilt}
use kernelbuild_buildkit.Frontend.Pin.{PinOrigin, apply_opts-pin}
use kernelbuild_buildkit.Graph.{kernel_llb, graph_of}
use kernelbuild_buildkit.Graph.Key.{key, elsewhere, kernel_llb-neutral}
use kernelbuild_buildkit.Kernelfile.{raw_lines, read_line, parse_kernelfile}
use kernelbuild_buildkit.Kernelfile.Lines.{Entries, read_lines, entries, parse_kernelfile-perm}
use kernelbuild_buildkit.Kernelfile.Meaning.{meaning, parse_kernelfile-meaning}
use kernelbuild_buildkit.Graph.Vertices.{Graph}
use kernelbuild_buildkit.Seed.{seed_text, seed_cfg, load_seed_cfg}
use kernelbuild_buildkit.Seed.Contract.{IsDigest, described, load_seed_cfg-seed_cfg}
use kernelbuild_buildkit.Solve.{Daemon, gateway_solve}
use kernelbuild_buildkit.Solve.Checked.{IsSolved, gateway_solve-IsSolved}
use kernelbuild_buildkit.Spec.{Spec, arch_or_default, targets_or_default}
use kernelbuild_buildkit.Spec.Accepted.{IsSafe, validate-IsSafe}
use kernelbuild_buildkit.Spec.Source.{default_spec, source_url_for}
use kernelbuild_buildkit.Spec.Timestamp.{timestamp}
use kernelbuild_buildkit.Spec.Validate.{validate, is_target}
use kernelbuild_buildkit.Targets.{Plan, no_plan, resolve_targets, modules_enabled}
use kernelbuild_buildkit.Targets.Contract.{Extends}
use kernelbuild_buildkit.Targets.Modules.{but_last, modules_enabled-member}
use kernelbuild_buildkit.Targets.Resolve.{resolve_targets_iff, resolve_targets-validate}

timestamp_default : timestamp (codes "1785542400") ≡ ok (codes "Sat Aug  1 00:00:00 UTC 2026")
unfolding timestamp
timestamp_default = refl

timestamp_zero : timestamp (codes "0") ≡ ok (codes "Thu Jan  1 00:00:00 UTC 1970")
unfolding timestamp
timestamp_zero = refl

timestamp_last : timestamp (codes "253402300799") ≡ ok (codes "Fri Dec 31 23:59:59 UTC 9999")
unfolding timestamp
timestamp_last = refl

timestamp_leap : timestamp (codes "1709164801") ≡ ok (codes "Thu Feb 29 00:00:01 UTC 2024")
unfolding timestamp
timestamp_leap = refl

validate_default : validate default_spec ≡ ok tt
unfolding validate default_spec
validate_default = refl

validate-IsSafe_example : IsSafe default_spec
validate-IsSafe_example = validate-IsSafe default_spec validate_default

abbrev file : Bytes
file = codes "# a build\nKERNEL 6.12.1\n\nARCH x86_64\n"

abbrev swapped_file : Bytes
swapped_file = codes "ARCH x86_64\nKERNEL 6.12.1\n"

abbrev file_entries : Entries
file_entries = (codes "KERNEL", codes "6.12.1") ∷ (codes "ARCH", codes "x86_64") ∷ []

abbrev swapped_entries : Entries
swapped_entries = (codes "ARCH", codes "x86_64") ∷ (codes "KERNEL", codes "6.12.1") ∷ []

entries_file : entries file ≡ ok file_entries
unfolding entries read_lines raw_lines read_line
entries_file = refl

entries_swapped : entries swapped_file ≡ ok swapped_entries
unfolding entries read_lines raw_lines read_line
entries_swapped = refl

-- What the file describes.
abbrev filed : Spec
filed = record default_spec {
  kernel_version = codes "6.12.1";
  source_url = source_url_for (codes "6.12.1");
  source_sha256 = [];
  arch = codes "x86_64";
}

parse_file : parse_kernelfile file default_spec ≡ ok filed
unfolding parse_kernelfile default_spec source_url_for
parse_file = refl

parse_kernelfile-meaning_example : filed ≡ meaning file_entries default_spec
parse_kernelfile-meaning_example =
    parse_kernelfile-meaning file default_spec filed file_entries entries_file parse_file

parse_kernelfile-perm_example : parse_kernelfile swapped_file default_spec ≡ ok filed
parse_kernelfile-perm_example =
    parse_kernelfile-perm file swapped_file default_spec filed file_entries swapped_entries
      entries_file entries_swapped (swap refl refl) parse_file

-- A stand-in for SHA-256.
abbrev first_bytes : Bytes → Bytes
first_bytes b = codes "0123456789abcdef0123456789abcdef"

first_bytes-IsDigest : IsDigest first_bytes
first_bytes-IsDigest b = refl

abbrev seeded : Spec
seeded = record default_spec {
  seed_url = codes "https://seeds.example.com/kernels";
  seed_push = true;
}

validate-seeded : validate seeded ≡ ok tt
unfolding validate default_spec
validate-seeded = refl

seed_cfg-seeded : seed_cfg first_bytes seeded ≡ some (seed_text first_bytes seeded)
unfolding seed_cfg default_spec
seed_cfg-seeded = refl

load_seed_cfg-seed_cfg_example :
    load_seed_cfg (record {
      seed_cfg_file = some (seed_text first_bytes seeded);
      access_key = some (codes "key");
      secret_key = some (codes "secret");
    })
    ≡ some (described first_bytes first_bytes-IsDigest seeded)
load_seed_cfg-seed_cfg_example =
    load_seed_cfg-seed_cfg first_bytes first_bytes-IsDigest seeded (codes "key") (codes "secret")
      (seed_text first_bytes seeded) validate-seeded seed_cfg-seeded

resolve_targets-validate_example :
    (q : Plan) × (resolve_targets
        (arch_or_default default_spec)
        (join (codes ",") (targets_or_default default_spec))
      ≡ ok q)
    × Extends (arch_or_default default_spec) (targets_or_default default_spec) no_plan q
resolve_targets-validate_example = resolve_targets-validate default_spec validate_default

resolve_targets_iff_example :
    ((q : Plan) × (resolve_targets (codes "arm64") (codes "image,config") ≡ ok q)
      × Extends (codes "arm64") (split 44 (codes "image,config")) no_plan q)
    ↔ ((is_empty (codes "image,config") ≡ false)
        × (every is_target (split 44 (codes "image,config")) ≡ true))
resolve_targets_iff_example = resolve_targets_iff (codes "arm64") (codes "image,config")

modules_enabled-member_example :
    modules_enabled (codes "CONFIG_NET=y\nCONFIG_MODULES=y\n")
    ≡ member
        (codes "CONFIG_MODULES=y")
        (but_last (split 10 (codes "CONFIG_NET=y\nCONFIG_MODULES=y\n")))
modules_enabled-member_example = modules_enabled-member (codes "CONFIG_NET=y\nCONFIG_MODULES=y\n")

abbrev parse_platform : Bytes → Option Platform
parse_platform p = some (record { os = codes "linux"; architecture = codes "arm64" })

-- `--opt kernel-version=6.12.1 --opt platform=arm64`
abbrev opts : Opts
opts k =
    if beq k (codes "kernel-version")
    then some (codes "6.12.1")
    else if beq k (codes "source")
    then some (codes "ghcr.io/example/frontend:v1")
    else if beq k (codes "toolchain-ready")
    then some (codes "true")
    else if beq k (codes "platform")
    then some (codes "arm64")
    else none

abbrev opted : Spec
opted = record default_spec {
  kernel_version = codes "6.12.1";
  source_url = source_url_for (codes "6.12.1");
  source_sha256 = [];
  toolchain_ready = true;
  arch = codes "arm64";
}

apply_opts-opted : apply_opts parse_platform opts default_spec ≡ ok opted
unfolding apply_opts default_spec source_url_for
apply_opts-opted = refl

apply_opts-pin_example : PinOrigin opts default_spec opted
apply_opts-pin_example = apply_opts-pin parse_platform opts default_spec opted apply_opts-opted

abbrev gateway : Gateway
gateway = record {
  opts = opts;
  describe_request = codes "describe";
  read_kernelfile = λ name. none;
  parse_platform = parse_platform;
  parse_imports = λ v. some [];
}

abbrev built : Spec
built = record opted { helper_ref = codes "ghcr.io/example/frontend:v1" }

build-gateway : build gateway ≡ ok (solve built [] [])
unfolding build default_spec source_url_for
build-gateway = refl

build-IsBuilt_example : (build gateway ≡ ok (solve built [] [])) ↔ IsBuilt gateway built [] []
build-IsBuilt_example = build-IsBuilt gateway built [] []

abbrev default_graph : Graph
default_graph = graph_of first_bytes (codes "action") default_spec

-- The same build behind a proxy and with a seed.
abbrev moved : Spec
moved =
    elsewhere (codes "http://proxy:3128") [] [] (codes "https://seeds.example.com/kernels") []
      (codes "seeds") default_spec

kernel_llb_default : kernel_llb first_bytes (codes "action") default_spec ≡ ok default_graph
unfolding kernel_llb default_spec
kernel_llb_default = refl

kernel_llb-moved :
    kernel_llb first_bytes (codes "action") moved ≡ ok (graph_of first_bytes (codes "action") moved)
unfolding kernel_llb default_spec
kernel_llb-moved = refl

kernel_llb-neutral_example :
    (default_spec.seed_push ≡ false
      → key (graph_of first_bytes (codes "action") moved) ≡ key default_graph)
    × (default_spec.seed_push ≡ true
        → key (graph_of first_bytes (codes "action") moved) ≡ key default_graph
        → codes "action" ≡ codes "action")
kernel_llb-neutral_example =
    kernel_llb-neutral first_bytes default_spec (codes "http://proxy:3128") [] []
      (codes "https://seeds.example.com/kernels") [] (codes "seeds") (codes "action")
      (codes "action") default_graph (graph_of first_bytes (codes "action") moved)
      kernel_llb_default kernel_llb-moved

-- A daemon that resolves the tag, over a context with a configuration.
abbrev daemon : Daemon
daemon = record {
  resolve = λ ref mode. some (ref, codes "sha256:00");
  has_context = true;
  has_file = λ name. beq name (codes "kernel.config");
  patches = none;
}

abbrev tagged : Spec
tagged = record default_spec { base = codes "ubuntu:24.04" }

abbrev tagged_graph : Graph
tagged_graph =
    graph_of first_bytes (codes "action")
      (record default_spec { base = codes "ubuntu:24.04@sha256:00" })

gateway_solve-tagged : gateway_solve daemon first_bytes (codes "action") [] tagged ≡ ok tagged_graph
unfolding gateway_solve default_spec
gateway_solve-tagged = refl

gateway_solve-IsSolved_example : IsSolved daemon first_bytes (codes "action") [] tagged tagged_graph
gateway_solve-IsSolved_example =
    gateway_solve-IsSolved daemon first_bytes (codes "action") [] tagged tagged_graph
      gateway_solve-tagged
