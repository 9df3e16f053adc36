-- ===== src/Step/Fetch.antt =====
-- `downloadClient` (cmd/kbuild-step/main.go): the client of the download, with the dialer that refuses
-- link-local addresses and the policy on redirects. The resolver, the connections and the servers are
-- parameters. The proxy of the environment, with which the dialer is not asked, is left out.
pub mod Guard
pub mod Blocked
use kernelbuild_buildkit.Common.{
  ℕ, zero, suc, ◌/◌, ◌%◌, ◌==◌, leb, Bool, true, false, not, ◌&&◌, ◌||◌, List, [], ◌∷◌, ◌++◌,
  Option, none, some, Bytes, codes, beq, length, take, drop, if◌then◌else◌, Result, ok, err,
}

-- net.IP, of 4 bytes or of 16.
abbrev pub Ip : Type 0
Ip = Bytes

abbrev pub v4_in_v6_prefix : Bytes
v4_in_v6_prefix = 0 ∷ 0 ∷ 0 ∷ 0 ∷ 0 ∷ 0 ∷ 0 ∷ 0 ∷ 0 ∷ 0 ∷ 0xff ∷ 0xff ∷ []

-- net.IP.To4
unfoldable pub to4 : Ip → Option Ip
unfolding beq
to4 ip =
    if length ip == 4
    then some ip
    else if length ip == 16 && beq (take 12 ip) v4_in_v6_prefix
    then some (drop 12 ip)
    else none

abbrev pub starts_169_254 : Bytes → Bool
starts_169_254 (a ∷ b ∷ rest) = a == 169 && b == 254
starts_169_254 bytes = false

-- fe80::/10
abbrev pub starts_fe80 : Bytes → Bool
starts_fe80 (a ∷ b ∷ rest) = a == 0xfe && b / 64 == 2
starts_fe80 bytes = false

abbrev pub starts_224_0_0 : Bytes → Bool
starts_224_0_0 (a ∷ b ∷ c ∷ rest) = a == 224 && (b == 0 && c == 0)
starts_224_0_0 bytes = false

abbrev pub starts_ff02 : Bytes → Bool
starts_ff02 (a ∷ b ∷ rest) = a == 0xff && b % 16 == 2
starts_ff02 bytes = false

abbrev pub by_version : (Bytes → Bool) → (Bytes → Bool) → Ip → Option Ip → Bool
by_version v4 v6 ip none = length ip == 16 && v6 ip
by_version v4 v6 ip (some ip4) = v4 ip4

-- net.IP.IsLinkLocalUnicast and IsLinkLocalMulticast
unfoldable pub is_link_local_unicast : Ip → Bool
unfolding to4
is_link_local_unicast ip = by_version starts_169_254 starts_fe80 ip (to4 ip)

unfoldable pub is_link_local_multicast : Ip → Bool
unfolding to4
is_link_local_multicast ip = by_version starts_224_0_0 starts_ff02 ip (to4 ip)

-- fd00:ec2::254
abbrev pub aws_imds_v6 : Ip
aws_imds_v6 = 0xfd ∷ 0 ∷ 0x0e ∷ 0xc2 ∷ 0 ∷ 0 ∷ 0 ∷ 0 ∷ 0 ∷ 0 ∷ 0 ∷ 0 ∷ 0 ∷ 0 ∷ 0x02 ∷ 0x54 ∷ []

-- net.IP.Equal
unfoldable pub equal : Ip → Ip → Bool
unfolding beq
equal ip x =
    if length ip == length x
    then beq ip x
    else if length ip == 4 && length x == 16
    then beq (take 12 x) v4_in_v6_prefix && beq ip (drop 12 x)
    else length ip == 16 && length x == 4 && beq (take 12 ip) v4_in_v6_prefix && beq (drop 12 ip) x

-- The guard of the dialer on an address.
unfoldable pub is_refused : Ip → Bool
unfolding is_link_local_unicast is_link_local_multicast equal
is_refused ip = is_link_local_unicast ip || (is_link_local_multicast ip || equal ip aws_imds_v6)

pub data FetchError : Type 0 where
  -- policyError
  policy : FetchError
  -- a net.DNSError with IsNotFound
  not_found : FetchError
  no_addresses : FetchError
  transport : Bytes → FetchError

-- `isPermanent`
unfoldable pub is_permanent : FetchError → Bool
is_permanent policy = true
is_permanent not_found = true
is_permanent no_addresses = false
is_permanent (transport e) = false

pub record Url : Type 0 where
  pub scheme : Bytes
  -- the host and the port
  pub addr : Bytes

-- What a request comes to: a response with a status, or a redirect.
pub data Hop : Type 0 where
  landed : ℕ → Hop
  moved : Url → Hop

-- net.SplitHostPort, the resolver, a connection to an address and a port, and the answer to the
-- request of a number.
pub record Net : Type 0 where
  pub split_host_port : Bytes → Option (Bytes × Bytes)
  pub lookup_ip : Bytes → Result FetchError (List Ip)
  pub dial : Ip → Bytes → Option FetchError
  pub hop : ℕ → Url → Hop

-- The addresses that a dial has tried, and the one it is connected to.
pub record Dialed : Type 0 where
  pub tried : List Ip
  pub result : Result FetchError Ip

abbrev pub undialed : FetchError → Dialed
undialed e = record { tried = []; result = err e }

abbrev pub last_err : Option FetchError → FetchError
last_err none = no_addresses
last_err (some e) = e

abbrev pub dialed : Ip → Option FetchError → (FetchError → Dialed) → Dialed
dialed ip none go = record { tried = ip ∷ []; result = ok ip }
dialed ip (some e) go = record (go e) { tried = ip ∷ (go e).tried }

-- The addresses in their order, up to the first that answers.
unfoldable pub dial_each : Net → Bytes → List Ip → Option FetchError → Dialed
dial_each net port [] last = undialed (last_err last)
dial_each net port (ip ∷ ips) last =
    dialed ip (net.dial ip port) (λ e. dial_each net port ips (some e))

unfoldable pub any_refused : List Ip → Bool
unfolding is_refused
any_refused [] = false
any_refused (ip ∷ ips) = is_refused ip || any_refused ips

abbrev pub dial_vetted : Net → Bytes → Result FetchError (List Ip) → Dialed
dial_vetted net port (err e) = undialed e
dial_vetted net port (ok ips) =
    if any_refused ips then undialed policy else dial_each net port ips none

abbrev pub dial_host : Net → Option (Bytes × Bytes) → Dialed
dial_host net none = undialed (transport [])
dial_host net (some (host, port)) = dial_vetted net port (net.lookup_ip host)

-- DialContext: all answers of the resolver are vetted, and they are what is dialed.
unfoldable pub dial_context : Net → Bytes → Dialed
unfolding any_refused dial_each
dial_context net addr = dial_host net (net.split_host_port addr)

abbrev pub is_https : Url → Bool
is_https url = beq url.scheme (codes "https")

-- CheckRedirect, after this many requests.
unfoldable pub check_redirect : ℕ → Url → Option FetchError
unfolding beq
check_redirect via url =
    if leb 5 via then some policy else if not (is_https url) then some policy else none

-- What a call of client.Do requests, which addresses it dials, and how it ends.
pub record Fetch : Type 0 where
  pub urls : List Url
  pub tried : List Ip
  pub result : Result FetchError ℕ

abbrev pub finished : Result FetchError ℕ → Fetch
finished r = record { urls = []; tried = []; result = r }

abbrev pub redirected : (Url → Option Fetch) → Url → Option FetchError → Option Fetch
redirected go url none = go url
redirected go url (some e) = some (finished (err e))

abbrev pub answered : (Url → Option Fetch) → ℕ → Hop → Option Fetch
answered go via (landed status) = some (finished (ok status))
answered go via (moved url) = redirected go url (check_redirect via url)

abbrev pub with_tried : List Ip → Option Fetch → Option Fetch
with_tried tried none = none
with_tried tried (some f) = some (record f { tried = tried ++ f.tried })

abbrev pub after_dial : Result FetchError Ip → Option Fetch → Option Fetch
after_dial (err e) rest = some (finished (err e))
after_dial (ok ip) rest = rest

abbrev pub connected : Dialed → Option Fetch → Option Fetch
connected d rest = with_tried d.tried (after_dial d.result rest)

abbrev pub requesting : Url → Option Fetch → Option Fetch
requesting url none = none
requesting url (some f) = some (record f { urls = url ∷ f.urls })

-- client.Do: a redirect is followed where CheckRedirect lets it pass. On fuel.
unfoldable pub fetch_from : Net → ℕ → ℕ → Url → Option Fetch
unfolding dial_context check_redirect
fetch_from net zero via url = none
fetch_from net (suc k) via url =
    let rest = λ (u : Url). fetch_from net k (suc via) u in
    requesting url
      (connected (dial_context net url.addr) (answered rest (suc via) (net.hop via url)))

-- The first request and what follows; five rounds are enough.
unfoldable pub fetch : Net → Url → Option Fetch
unfolding fetch_from
fetch net url = fetch_from net 5 0 url
