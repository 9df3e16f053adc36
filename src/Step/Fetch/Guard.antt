-- ===== src/Step/Fetch/Guard.antt =====
-- A fetch of the tarball stays behind its guards (cmd/kbuild-step/main.go, `downloadClient`).
use kernelbuild_buildkit.Common.{
  ℕ, zero, suc, ◌+◌, ◌≤◌, ◌<◌, Bool, true, false, List, [], ◌∷◌, ◌++◌, Option, none, some, Bytes,
  length, All, if◌then◌else◌, Result, ok, err, ◌≡◌, refl, ap, arith,
}
use kernelbuild_buildkit.Step.Fetch.{
  Ip, Url, Hop, Net, Dialed, Fetch, FetchError, policy, landed, moved, is_refused, any_refused,
  undialed, dialed, dial_each, dial_vetted, dial_host, dial_context, is_https, check_redirect,
  finished, redirected, answered, with_tried, after_dial, connected, requesting, fetch_from, fetch,
}

-- An address that the dialer lets pass.
abbrev pub Clear : Ip → Type 0
Clear ip = is_refused ip ≡ false

dial_each-Clear :
    (net : Net) (port : Bytes) (ips : List Ip) (last : Option FetchError)
    → any_refused ips ≡ false
    → All Clear (dial_each net port ips last).tried
unfolding dial_each any_refused
dial_each-Clear net port [] last h = tt
dial_each-Clear net port (ip ∷ ips) last h =
    by_answer (net.dial ip port) first (λ e. dial_each-Clear net port ips (some e) rest)
  where
    first : Clear ip
    first = ground arith

    rest : any_refused ips ≡ false
    rest = ground arith

    by_answer :
        (o : Option FetchError)
        → Clear ip
        → ((e : FetchError) → All Clear (dial_each net port ips (some e)).tried)
        → All Clear (dialed ip o (λ e. dial_each net port ips (some e))).tried
    by_answer none a b = (a, tt)
    by_answer (some e) a b = (a, b e)

dial_context-Clear : (net : Net) (addr : Bytes) → All Clear (dial_context net addr).tried
unfolding dial_context
dial_context-Clear net addr = by_split (net.split_host_port addr)
  where
    by_guard :
        (port : Bytes) (ips : List Ip) (b : Bool)
        → any_refused ips ≡ b
        → All Clear (if b then undialed policy else dial_each net port ips none).tried
    by_guard port ips true e = tt
    by_guard port ips false e = dial_each-Clear net port ips none e

    by_lookup :
        (port : Bytes) (r : Result FetchError (List Ip)) → All Clear (dial_vetted net port r).tried
    by_lookup port (err e) = tt
    by_lookup port (ok ips) = by_guard port ips (any_refused ips) refl

    by_split : (o : Option (Bytes × Bytes)) → All Clear (dial_host net o).tried
    by_split none = tt
    by_split (some (host, port)) = by_lookup port (net.lookup_ip host)

-- What a fetch has not left: https, the addresses that are clear, and a number of requests.
pub record IsGuarded (n : ℕ) (f : Fetch) : Type 0 where
  pub https : All (λ u. is_https u ≡ true) f.urls
  pub clear : All Clear f.tried
  pub few : length f.urls ≤ n

abbrev Guarded : ℕ → Option Fetch → Type 0
Guarded n o = (f : Fetch) × (o ≡ some f) × IsGuarded n f

All-append : (xs ys : List Ip) → All Clear xs → All Clear ys → All Clear (xs ++ ys)
All-append [] ys a b = b
All-append (x ∷ xs) ys (c, a) b = (c, All-append xs ys a b)

finished-Guarded : (n : ℕ) (r : Result FetchError ℕ) → Guarded n (some (finished r))
finished-Guarded n r = (finished r, refl, record { https = tt; clear = tt; few = omega arith })

connected-Guarded :
    (n : ℕ) (d : Dialed) (o : Option Fetch)
    → All Clear d.tried
    → Guarded n o
    → Guarded n (connected d o)
connected-Guarded n d o c g = with_clear (after_dial d.result o) (by_result d.result)
  where
    by_result : (r : Result FetchError Ip) → Guarded n (after_dial r o)
    by_result (err e) = finished-Guarded n (err e)
    by_result (ok ip) = g

    with_clear : (a : Option Fetch) → Guarded n a → Guarded n (with_tried d.tried a)
    with_clear a (f, e, i) = (
      record f { tried = d.tried ++ f.tried },
      ap (with_tried d.tried) e,
      record { https = i.https; clear = All-append d.tried f.tried c i.clear; few = i.few },
    )

requesting-Guarded :
    (n : ℕ) (url : Url) (o : Option Fetch)
    → is_https url ≡ true
    → Guarded n o
    → Guarded (suc n) (requesting url o)
requesting-Guarded n url o h (f, e, i) = (
  record f { urls = url ∷ f.urls },
  ap (requesting url) e,
  record { https = (h, i.https); clear = i.clear; few = let few = i.few in omega arith },
)

check_redirect-none :
    (via : ℕ) (url : Url) → check_redirect via url ≡ none → (via < 5) × (is_https url ≡ true)
unfolding check_redirect
check_redirect-none via url h = (ground arith, ground arith)

answered-Guarded :
    (n via : ℕ) (go : Url → Option Fetch) (h : Hop)
    → ((u : Url) → via < 5 → is_https u ≡ true → Guarded n (go u))
    → Guarded n (answered go via h)
answered-Guarded n via go (landed status) g = finished-Guarded n (ok status)
answered-Guarded n via go (moved u) g = by_check (check_redirect via u) refl
  where
    by_check : (o : Option FetchError) → check_redirect via u ≡ o → Guarded n (redirected go u o)
    by_check none e = let (a, b) = check_redirect-none via u e in g u a b
    by_check (some x) e = finished-Guarded n (err x)

fetch_from-Guarded :
    (net : Net) (k via : ℕ) (url : Url)
    → via + k ≡ 5
    → via < 5
    → is_https url ≡ true
    → Guarded k (fetch_from net k via url)
unfolding fetch_from
fetch_from-Guarded net zero via url s l h = ground arith
fetch_from-Guarded net (suc k) via url s l h = requesting-Guarded k url _ h (
    connected-Guarded k (dial_context net url.addr) _ (dial_context-Clear net url.addr) (
      answered-Guarded k (suc via) (fetch_from net k (suc via)) (net.hop via url)
        (λ u a b. fetch_from-Guarded net k (suc via) u (omega arith) a b)))

-- A fetch that begins at an https URL comes to an end after at most five requests, whatever the
-- resolver and the servers answer; all of them go to https URLs, and no address that it tries to
-- connect to is one that the dialer refuses.
pub fetch-IsGuarded :
    (net : Net) (url : Url)
    → is_https url ≡ true
    → (f : Fetch) × (fetch net url ≡ some f) × IsGuarded 5 f
unfolding fetch
fetch-IsGuarded net url h = fetch_from-Guarded net 5 0 url (omega arith) (omega arith) h
