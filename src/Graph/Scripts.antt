-- ===== src/Graph/Scripts.antt =====
-- The shell scripts of the toolchain vertex (llb.go), as their lines.
use kernelbuild_buildkit.Common.{List, [], ◌∷◌, ◌++◌, Bytes, codes}

abbrev concat : List Bytes → Bytes
concat [] = []
concat (l ∷ ls) = l ++ concat ls

abbrev apt_deps : Bytes
apt_deps =
    codes "bc bison build-essential dwarves flex libelf-dev "
    ++ codes "libssl-dev ca-certificates cpio kmod"

abbrev before_deps : List Bytes
before_deps =
    codes "set -eux\n"
    ∷ codes "if [ -n \"${CA_FILE:-}\" ] && [ -f \"/certs/${CA_FILE}\" ]; then\n"
    ∷ codes "  apt-get update -qq\n"
    ∷ codes "  apt-get install -y --no-install-recommends ca-certificates\n"
    ∷ codes "  cat \"/certs/${CA_FILE}\" >> /etc/ssl/certs/ca-certificates.crt\n"
    ∷ codes "  sed -i 's|http://|https://|g' /etc/apt/sources.list.d/ubuntu.sources\n"
    ∷ codes "fi\n"
    ∷ codes "apt-get update -qq\n"
    ∷ codes "apt-get install -y --no-install-recommends "
    ∷ []

abbrev after_deps : List Bytes
after_deps =
    codes "\n"
    ∷ codes "if [ -n \"${CA_FILE:-}\" ] && [ -f \"/certs/${CA_FILE}\" ]; then\n"
    ∷ codes "  mkdir -p /usr/local/share/ca-certificates\n"
    ∷ codes "  cp \"/certs/${CA_FILE}\" /usr/local/share/ca-certificates/kbuild-proxy-ca.crt\n"
    ∷ codes "  update-ca-certificates\n"
    ∷ codes "fi\n"
    ∷ codes "rm -rf /var/lib/apt/lists/*\n"
    ∷ []

-- `toolchainScript`
unfoldable pub toolchain_script : Bytes
toolchain_script = concat before_deps ++ (apt_deps ++ concat after_deps)

abbrev trust_lines : List Bytes
trust_lines =
    codes "set -eux\n"
    ∷ codes "if [ -n \"${CA_FILE:-}\" ] && [ -f \"/certs/${CA_FILE}\" ]; then\n"
    ∷ codes "  mkdir -p /etc/ssl/certs\n"
    ∷ codes "  cat \"/certs/${CA_FILE}\" >> /etc/ssl/certs/ca-certificates.crt\n"
    ∷ codes "fi\n"
    ∷ []

-- `caOnlyScript`
unfoldable pub ca_only_script : Bytes
ca_only_script = concat trust_lines
