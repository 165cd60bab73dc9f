-- ===== src/Relay.antt =====
-- cmd/relay/main.go: the relay server. A connection is a number, which the WebSocket library chose;
-- what the server writes to a connection is a pair of that number and a frame. Times are Unix seconds
-- where the code has them; the cooldowns, which Go measures finer, are taken in the same seconds.
-- Writes are not checked, as in the code. Deadlines, pings and the log are left out.
pub mod Server
pub mod Pool
pub mod Limits
pub mod Announced
pub mod Bounds
pub mod Held
pub mod Delivery
mod Examples
use iskra.Base.{
  ℕ, zero, suc, ◌+◌, ◌-◌, ◌*◌, ◌≤◌, ◌<◌, ◌≡◌, Bool, true, false, not, ◌&&◌, ◌||◌, ◌==◌, ltb, leb,
  if◌then◌else◌, Option, some, none, List, [], ◌∷◌, ◌++◌, length, take, drop, get_or, keep,
}
use iskra.Base.Bytes.{Bytes, codes, ◌=?◌, zeros}
use iskra.Base.Dict.{Dict, lookup, insert, remove}
use iskra.Base.Hex.{hex}

-- in seconds
abbrev pub hold_ttl : ℕ
hold_ttl = 48 * 3600

abbrev pub hold_max_per_uid : ℕ
hold_max_per_uid = 200

abbrev pub max_known_relays : ℕ
max_known_relays = 64

abbrev pub federation_post_every : ℕ
federation_post_every = 60

pub record ClientInfo : Type 0 where
  pub conn : ℕ
  pub ed_pub : Bytes
  pub x25519_pub : Bytes
  pub has_sent : Bool

pub record KnownPeer : Type 0 where
  pub ed_pub_hex : Bytes
  pub x25519_hex : Bytes
  pub user_id : Bytes
  pub last_seen : ℕ
  pub is_clipper : Bool

pub record HoldEntry : Type 0 where
  pub frame : Bytes
  pub timestamp : ℕ

pub record RelayStats : Type 0 where
  pub msg_relayed : ℕ
  pub bytes_relayed : ℕ
  pub connections : ℕ
  pub files_blocked : ℕ
  pub hold_stored : ℕ
  pub hold_delivered : ℕ

-- `saved` is the content of hold.json, where it was written.
pub record Relay : Type 0 where
  pub clients : Dict ClientInfo
  pub aliases : Dict Bytes
  pub hold : Dict (List HoldEntry)
  pub known_peers : Dict KnownPeer
  pub last_sync : Dict ℕ
  pub known_relays : List Bytes
  pub federation_rate : Dict ℕ
  pub stats : RelayStats
  pub saved : Option (Dict (List HoldEntry))

-- What is written to the connections, first one first.
abbrev pub Writes : Type 0
Writes = List (ℕ × Bytes)

-- The queue of a recipient; a missing key is an empty slice.
unfoldable pub queue : Bytes → Dict (List HoldEntry) → List HoldEntry
queue uid hold = elim (lookup uid hold) [ none ↦ [] | some entries ↦ entries ]

-- saveHold; `writable` says whether the file can be written.
unfoldable pub save_hold : Bool → Relay → Relay
save_hold writable r = if writable then record r { saved = some r.hold } else r

-- The entries that loadHold and cleanupHold keep: `e.Timestamp > now - ttl`, where the difference may
-- be negative.
unfoldable pub is_fresh : ℕ → HoldEntry → Bool
is_fresh now e = ltb now (e.timestamp + hold_ttl)

-- The loop that loadHold and cleanupHold share; a recipient with no entry left is dropped.
unfoldable pub fresh_hold : ℕ → Dict (List HoldEntry) → Dict (List HoldEntry)
fresh_hold now [] = []
fresh_hold now ((uid, entries) ∷ rest) =
    let valid = keep (is_fresh now) entries in
    let tail = fresh_hold now rest in if ltb 0 (length valid) then (uid, valid) ∷ tail else tail

-- loadHold, of the entries that the file holds, into an empty map.
unfoldable pub load_hold : ℕ → Relay → Relay
load_hold now r = elim r.saved [
  | none ↦ r
  | some stored ↦ record r { hold = fresh_hold now stored }
]

-- The number of entries.
unfoldable pub total : Dict (List HoldEntry) → ℕ
total [] = 0
total ((uid, entries) ∷ rest) = length entries + total rest

-- cleanupHold saves only if something was removed.
unfoldable pub cleanup_hold : Bool → ℕ → Relay → Relay
cleanup_hold writable now r =
    let kept = record r { hold = fresh_hold now r.hold } in
    if ltb (total kept.hold) (total r.hold) then save_hold writable kept else kept

-- cleanupKnownPeers
unfoldable pub recent_peers : ℕ → Dict KnownPeer → Dict KnownPeer
recent_peers now [] = []
recent_peers now ((uid, kp) ∷ rest) =
    let tail = recent_peers now rest in
    if ltb (kp.last_seen + 30 * 24 * 3600) now then tail else (uid, kp) ∷ tail

unfoldable pub cleanup_known_peers : ℕ → Relay → Relay
cleanup_known_peers now r = record r { known_peers = recent_peers now r.known_peers }

abbrev pub no_stats : RelayStats
no_stats = record {
  msg_relayed = 0;
  bytes_relayed = 0;
  connections = 0;
  files_blocked = 0;
  hold_stored = 0;
  hold_delivered = 0;
}

-- logHourlyStats, without its line in the log.
unfoldable pub log_hourly_stats : Relay → Relay
log_hourly_stats r = record r { stats = no_stats }

-- broadcastExcept
unfoldable pub targets : Bytes → Bytes → Dict ClientInfo → Writes
targets uid frame [] = []
targets uid frame ((id, ci) ∷ rest) =
    let tail = targets uid frame rest in if id =? uid then tail else (ci.conn, frame) ∷ tail

unfoldable pub broadcast_except : Bytes → Bytes → Relay → Writes
broadcast_except uid frame r = targets uid frame r.clients

-- The frames of held entries, for one connection.
unfoldable pub frames_to : ℕ → List HoldEntry → Writes
frames_to conn [] = []
frames_to conn (e ∷ es) = (conn, e.frame) ∷ frames_to conn es

-- The relay that main builds, with what is left of the file of an earlier run.
unfoldable pub start_relay : ℕ → Option (Dict (List HoldEntry)) → Relay
start_relay now stored = load_hold now (record {
  clients = [];
  aliases = [];
  hold = [];
  known_peers = [];
  last_sync = [];
  known_relays = [];
  federation_rate = [];
  stats = no_stats;
  saved = stored;
})

-- What main does every hour.
unfoldable pub every_hour : Bool → ℕ → Relay → Relay
every_hour writable now r = log_hourly_stats (cleanup_known_peers now (cleanup_hold writable now r))
