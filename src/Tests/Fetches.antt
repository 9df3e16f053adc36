-- ===== src/Tests/Fetches.antt =====
-- The client of the download at concrete answers of the resolver and the servers.
use kernelbuild_buildkit.Common.{
  ℕ, zero, suc, true, false, List, [], ◌∷◌, Option, none, some, codes, beq, ◌≡◌, refl, arith,
  if◌then◌else◌, Result, ok, err,
}
use kernelbuild_buildkit.Step.Fetch.{
  Ip, Url, Hop, Net, Fetch, FetchError, policy, transport, landed, moved, fetch, is_https,
  is_refused,
}
use kernelbuild_buildkit.Step.Fetch.Guard.{IsGuarded, fetch-IsGuarded}
use kernelbuild_buildkit.Step.Fetch.Blocked.{v4, groups_of, is_blocked, is_refused-is_blocked}

abbrev mirror : Url
mirror = record { scheme = codes "https"; addr = codes "cdn:443" }

abbrev plain_mirror : Url
plain_mirror = record { scheme = codes "http"; addr = codes "cdn:80" }

abbrev cdn_answers : List Ip
cdn_answers = (151 ∷ 101 ∷ 1 ∷ 1 ∷ []) ∷ (151 ∷ 101 ∷ 1 ∷ 2 ∷ []) ∷ []

abbrev metadata_answers : List Ip
metadata_answers = (151 ∷ 101 ∷ 1 ∷ 1 ∷ []) ∷ (169 ∷ 254 ∷ 169 ∷ 254 ∷ []) ∷ []

-- The first address of the name does not answer.
abbrev answering : List Ip → (ℕ → Url → Hop) → Net
answering ips hop = record {
  split_host_port = λ addr. some (addr, codes "443");
  lookup_ip = λ host. ok ips;
  dial =
      λ ip port. if beq ip (151 ∷ 101 ∷ 1 ∷ 1 ∷ []) then some (transport (codes "reset")) else none;
  hop = hop;
}

abbrev one_redirect : ℕ → Url → Hop
one_redirect zero url = moved mirror
one_redirect (suc n) url = landed 200

abbrev redirecting : ℕ → Url → Hop
redirecting n url = moved mirror

abbrev downgrading : ℕ → Url → Hop
downgrading n url = moved plain_mirror

abbrev result_of : Option Fetch → Option (Result FetchError ℕ)
result_of none = none
result_of (some f) = some f.result

abbrev tried_of : Option Fetch → List Ip
tried_of none = []
tried_of (some f) = f.tried

redirected_once : result_of (fetch (answering cdn_answers one_redirect) mirror) ≡ some (ok 200)
unfolding fetch
redirected_once = refl

endless_redirects : result_of (fetch (answering cdn_answers redirecting) mirror) ≡ some (err policy)
unfolding fetch
endless_redirects = refl

downgrade : result_of (fetch (answering cdn_answers downgrading) mirror) ≡ some (err policy)
unfolding fetch
downgrade = refl

-- One bad answer among good ones is enough: nothing is dialed.
rebinding : tried_of (fetch (answering metadata_answers one_redirect) mirror) ≡ []
unfolding fetch
rebinding = refl

mapped_metadata :
    is_refused (0 ∷ 0 ∷ 0 ∷ 0 ∷ 0 ∷ 0 ∷ 0 ∷ 0 ∷ 0 ∷ 0 ∷ 0xff ∷ 0xff ∷ 169 ∷ 254 ∷ 169 ∷ 254 ∷ [])
    ≡ true
unfolding is_refused
mapped_metadata = refl

private_address : is_refused (192 ∷ 168 ∷ 0 ∷ 1 ∷ []) ≡ false
unfolding is_refused
private_address = refl

https_mirror : is_https mirror ≡ true
unfolding beq
https_mirror = refl

fetch-IsGuarded_example :
    (f : Fetch) × (fetch (answering cdn_answers one_redirect) mirror ≡ some f) × IsGuarded 5 f
fetch-IsGuarded_example = fetch-IsGuarded (answering cdn_answers one_redirect) mirror https_mirror

is_refused-is_blocked_example :
    is_refused (169 ∷ 254 ∷ 169 ∷ 254 ∷ []) ≡ is_blocked (groups_of (169 ∷ 254 ∷ 169 ∷ 254 ∷ []))
is_refused-is_blocked_example =
    is_refused-is_blocked (169 ∷ 254 ∷ 169 ∷ 254 ∷ [])
      (v4 169 254 169 254 (omega arith) (omega arith) (omega arith) (omega arith))
