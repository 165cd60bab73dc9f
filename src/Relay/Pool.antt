-- ===== src/Relay/Pool.antt =====
-- cmd/relay/main.go: handleFederation and validFederationURL. What net/url and net make of an address
-- is an argument.
use iskra.Base.{
  ℕ, ◌+◌, Bool, true, false, not, ◌&&◌, ◌||◌, ltb, leb, if◌then◌else◌, Option, some, none, List, [],
  ◌∷◌, ◌++◌, length, drop,
}
use iskra.Base.Bytes.{Bytes, codes, ◌=?◌}
use iskra.Base.Dict.{lookup, insert, contains}
use iskra.Relay.{Relay, max_known_relays, federation_post_every}

-- url.Parse with its scheme and host, strings.ToLower, and net.ParseIP with the tests for loopback,
-- private, link-local and unspecified addresses in one; `none` where the text is no IP address.
pub record Net : Type 0 where
  pub scheme_host : Bytes → Option (Bytes × Bytes)
  pub lower : Bytes → Bytes
  pub ip_is_local : Bytes → Option Bool

-- validFederationURL
unfoldable pub valid_federation_url : Net → Bytes → Bool
valid_federation_url net s = if ltb 256 (length s) then false else (elim (net.scheme_host s) [
  | none ↦ false
  | some (scheme, host) ↦
      let lh = net.lower host in
      if not (scheme =? codes "wss") && not (scheme =? codes "https")
      then false
      else if host =? []
      then false
      else if lh =? codes "localhost" || (lh =? codes "ip6-localhost" || lh =? codes "ip6-loopback")
      then false
      else (elim (net.ip_is_local host) [ none ↦ true | some is_local ↦ not is_local ])
])

pub data Answer : Type 0 where
  bad_request : Answer
  rate_limited : Answer
  accepted : Bool → Answer

-- Whether a source has posted less than a minute ago.
unfoldable pub too_soon : ℕ → Option ℕ → Bool
too_soon now none = false
too_soon now (some last) = ltb now (last + federation_post_every)

-- The pool with a new address; a full pool loses its oldest.
unfoldable pub announce : Bytes → List Bytes → List Bytes
announce url relays =
    if leb max_known_relays (length relays) then drop 1 relays ++ url ∷ [] else relays ++ url ∷ []

-- POST of handleFederation, with the address in the body, if it could be read.
unfoldable pub post_federation : Net → ℕ → Bytes → Option Bytes → Relay → Relay × Answer
post_federation net now src_ip none r = (r, bad_request)
post_federation net now src_ip (some url) r =
    if url =? []
    then (r, bad_request)
    else if not (valid_federation_url net url)
    then (r, bad_request)
    else if too_soon now (lookup src_ip r.federation_rate)
    then (r, rate_limited)
    else (let r1 : Relay = record r { federation_rate = insert src_ip now r.federation_rate } in
        if contains url r1.known_relays
        then (r1, accepted false)
        else (record r1 { known_relays = announce url r1.known_relays }, accepted true))
