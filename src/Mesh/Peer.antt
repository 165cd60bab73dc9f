-- ===== src/Mesh/Peer.antt =====
-- internal/mesh/peer.go: the list of known peers, a map from public keys. Times are in nanoseconds and
-- the clock is an argument. Locks are left out: every method holds the one mutex throughout.
pub mod Stale
use iskra.Base.{
  ℕ, ◌+◌, ◌≡◌, Bool, true, false, ltb, if◌then◌else◌, Option, some, none, List, [], ◌∷◌, length,
}
use iskra.Base.Bytes.{Bytes}
use iskra.Base.Dict.{Dict, lookup, insert, remove}

pub record Peer : Type 0 where
  pub pub_key : Bytes
  pub ip : Bytes
  pub port : ℕ
  pub last_seen : ℕ
  pub connected : Bool

-- AddOrUpdate
unfoldable pub add_or_update : ℕ → Bytes → Bytes → ℕ → Dict Peer → Dict Peer
add_or_update now pub_key ip port peers = elim (lookup pub_key peers) [
  | some p ↦ insert pub_key (record p { ip = ip; port = port; last_seen = now }) peers
  | none ↦
      insert pub_key
        (record { pub_key = pub_key; ip = ip; port = port; last_seen = now; connected = false })
        peers
]

-- Get
unfoldable pub get : Bytes → Dict Peer → Option Peer
get pub_key peers = lookup pub_key peers

-- All
unfoldable pub all_peers : Dict Peer → List Peer
all_peers [] = []
all_peers ((pub_key, p) ∷ peers) = p ∷ all_peers peers

-- SetConnected
unfoldable pub set_connected : Bytes → Bool → Dict Peer → Dict Peer
set_connected pub_key connected peers = elim (lookup pub_key peers) [
  | some p ↦ insert pub_key (record p { connected = connected }) peers
  | none ↦ peers
]

-- Count
unfoldable pub count : Dict Peer → ℕ
count peers = length peers

-- `p.LastSeen.Before(time.Now().Add(-maxAge))`
unfoldable pub is_stale : ℕ → ℕ → Peer → Bool
is_stale now max_age p = ltb (p.last_seen + max_age) now

-- RemoveStale: the loop deletes the entry that it stands on.
unfoldable pub remove_stale : ℕ → ℕ → Dict Peer → Dict Peer
remove_stale now max_age [] = []
remove_stale now max_age ((pub_key, p) ∷ peers) =
    let rest = remove_stale now max_age peers in
    if is_stale now max_age p then rest else (pub_key, p) ∷ rest
