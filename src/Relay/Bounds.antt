-- ===== src/Relay/Bounds.antt =====
-- cmd/relay/main.go: what stays bounded, whatever the clients and the other relays send.
use iskra.Base.{ℕ, Bool, Option, List}
use iskra.Base.Bytes.{Bytes}
use iskra.Base.Dict.{Dict}
use iskra.Relay.{Relay, HoldEntry, start_relay, every_hour}
use iskra.Relay.Server.{connect, receive, disconnect}
use iskra.Relay.Pool.{Net, post_federation}
use iskra.Relay.Limits.{
  IsStored, IsBounded, start_relay-IsBounded, connect-IsBounded, receive-IsBounded,
  disconnect-IsBounded, every_hour-IsBounded,
}
use iskra.Relay.Announced.{post_federation-IsBounded}

pub data Reach (net : Net) : Relay → Type 0 where
  starts :
      (stored : Option (Dict (List HoldEntry))) (now : ℕ)
      → IsStored stored
      → Reach net (start_relay now stored)
  restarts : {r : Relay} (now : ℕ) → Reach net r → Reach net (start_relay now r.saved)
  connects :
      {r : Relay} (writable : Bool) (now conn : ℕ) (alias msg : Bytes)
      → Reach net r
      → Reach net (connect writable now conn alias msg r).0
  receives :
      {r : Relay} (writable : Bool) (now : ℕ) (ed_pub input : Bytes)
      → Reach net r
      → Reach net (receive writable now ed_pub input r).0
  disconnects :
      {r : Relay} (conn : ℕ) (ed_pub : Bytes) → Reach net r → Reach net (disconnect conn ed_pub r)
  posts :
      {r : Relay} (now : ℕ) (src_ip : Bytes) (url : Option Bytes)
      → Reach net r
      → Reach net (post_federation net now src_ip url r).0
  ticks :
      {r : Relay} (writable : Bool) (now : ℕ) → Reach net r → Reach net (every_hour writable now r)

-- In every state that a relay reaches, from a file with at most 200 entries a recipient and through
-- connections, frames, disconnections, federation posts, hourly cleanups and restarts in any order,
-- no recipient has more than 200 entries in the hold or in the file, and the pool of relays has at
-- most 64 addresses, all of which pass the check of addresses and none of which is there twice.
pub Reach-IsBounded : (net : Net) {r : Relay} → Reach net r → IsBounded net r
Reach-IsBounded net (starts stored now f) = start_relay-IsBounded net now stored f
Reach-IsBounded net (restarts {r = r} now h) =
    let (b, f, p) = Reach-IsBounded net h in start_relay-IsBounded net now r.saved f
Reach-IsBounded net (connects writable now conn alias msg h) =
    connect-IsBounded net writable now conn alias msg _ (Reach-IsBounded net h)
Reach-IsBounded net (receives writable now ed_pub input h) =
    receive-IsBounded net writable now ed_pub input _ (Reach-IsBounded net h)
Reach-IsBounded net (disconnects conn ed_pub h) =
    disconnect-IsBounded net conn ed_pub _ (Reach-IsBounded net h)
Reach-IsBounded net (posts now src_ip url h) =
    post_federation-IsBounded net now src_ip url _ (Reach-IsBounded net h)
Reach-IsBounded net (ticks writable now h) =
    every_hour-IsBounded net writable now _ (Reach-IsBounded net h)
