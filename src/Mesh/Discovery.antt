-- ===== src/Mesh/Discovery.antt =====
-- internal/mesh/discovery.go: the beacons of a local network. A round of listenOnInterface that has
-- read a datagram is `hear_beacon`; the calls of onPeer are values. Times are in nanoseconds, and a
-- socket that cannot be opened has no rounds.
pub mod Beacon
pub mod Cooldown
mod Examples
use iskra.Base.{
  ℕ, ◌+◌, ◌*◌, Bool, true, false, not, ◌&&◌, ◌||◌, ltb, if◌then◌else◌, Option, some, none, List, [],
  ◌∷◌, ◌++◌, length, take, drop, get_or, keep, any, map,
}
use iskra.Base.Bytes.{Bytes, codes, ◌=?◌}
use iskra.Base.Dict.{Dict, lookup, insert}
use iskra.Base.Endian.{put_be, get_be}
use iskra.Mesh.Peer.{Peer, add_or_update}

abbrev pub beacon_magic : Bytes
beacon_magic = codes "ISKRA1"

-- 6 + 32 + 2 + 1 + 8
abbrev pub beacon_size : ℕ
beacon_size = 49

-- 2*time.Minute
abbrev pub cooldown_time : ℕ
cooldown_time = 120 * 1000000000

pub record Discovery : Type 0 where
  pub pub_key : Bytes
  pub listen_port : ℕ
  pub version : ℕ
  pub peers : Dict Peer
  pub has_on_peer : Bool
  pub cooldown : Dict ℕ

-- NewDiscovery
unfoldable pub new_discovery : Bytes → ℕ → Dict Peer → Discovery
new_discovery pub_key listen_port peers = record {
  pub_key = pub_key;
  listen_port = listen_port;
  version = 1;
  peers = peers;
  has_on_peer = false;
  cooldown = [];
}

-- SetOnPeer
unfoldable pub set_on_peer : Discovery → Discovery
set_on_peer d = record d { has_on_peer = true }

pub data Parsed : Type 0 where
  beacon_too_short : ℕ → Parsed
  invalid_magic : Parsed
  parsed : Bytes → ℕ → ℕ → Parsed

-- makeBeacon, at a time in seconds
unfoldable pub make_beacon : ℕ → Discovery → Bytes
make_beacon now d =
    beacon_magic ++ (d.pub_key ++ (put_be 2 d.listen_port ++ d.version ∷ put_be 8 now))

-- parseBeacon
unfoldable pub parse_beacon : Bytes → Parsed
parse_beacon data' =
    if ltb (length data') beacon_size
    then beacon_too_short (length data')
    else if not (take 6 data' =? beacon_magic)
    then invalid_magic
    else parsed (take 32 (drop 6 data')) (get_be (take 2 (drop 38 data')))
        (get_or (drop 40 data') 0 0)

-- A call of onPeer.
pub record PeerCall : Type 0 where
  pub time : ℕ
  pub pub_key : Bytes
  pub ip : Bytes
  pub port : ℕ

-- `seen && time.Since(last) < 2*time.Minute`
unfoldable pub cooling : ℕ → Option ℕ → Bool
cooling now none = false
cooling now (some last) = ltb now (last + cooldown_time)

-- A parsed beacon of another node.
unfoldable pub meet_peer : ℕ → Bytes → Bytes → ℕ → Discovery → Discovery × List PeerCall
meet_peer now ip pub_key port d =
    let d1 : Discovery = record d { peers = add_or_update now pub_key ip port d.peers } in
    if cooling now (lookup pub_key d.cooldown) then (d1, []) else (
      record d1 { cooldown = insert pub_key now d.cooldown },
      if d.has_on_peer
          then record { time = now; pub_key = pub_key; ip = ip; port = port } ∷ []
          else [],
    )

unfoldable pub hear_parsed : ℕ → Bytes → Parsed → Discovery → Discovery × List PeerCall
hear_parsed now ip (beacon_too_short n) d = (d, [])
hear_parsed now ip invalid_magic d = (d, [])
hear_parsed now ip (parsed pub_key port version) d =
    if pub_key =? d.pub_key then (d, []) else meet_peer now ip pub_key port d

-- A round of listenOnInterface; the buffer has 1024 bytes.
unfoldable pub hear_beacon : ℕ → Bytes → Bytes → Discovery → Discovery × List PeerCall
hear_beacon now ip datagram d = hear_parsed now ip (parse_beacon (take 1024 datagram)) d

-- A datagram, with the time at which it is read and the address it comes from.
pub record Datagram : Type 0 where
  pub time : ℕ
  pub ip : Bytes
  pub content : Bytes

-- The rounds on all interfaces, in the order in which they take the lock.
unfoldable pub listen : List Datagram → Discovery → Discovery × List PeerCall
listen [] d = (d, [])
listen (g ∷ gs) d =
    let (d1, calls) = hear_beacon g.time g.ip g.content d in
    let (d2, later) = listen gs d1 in (d2, calls ++ later)

-- A net.Interface; `addrs` says of each address whether it is an IPv4 network, `none` is an error.
pub record Interface : Type 0 where
  pub name : Bytes
  pub up : Bool
  pub multicast : Bool
  pub loopback : Bool
  pub addrs : Option (List Bool)

-- strings.HasPrefix and strings.Contains
unfoldable pub starts_with : Bytes → Bytes → Bool
starts_with [] s = true
starts_with (b ∷ bs) [] = false
starts_with (b ∷ bs) (c ∷ s) = b ∷ [] =? c ∷ [] && starts_with bs s

unfoldable pub contains_text : Bytes → Bytes → Bool
contains_text part [] = starts_with part []
contains_text part (c ∷ s) = starts_with part (c ∷ s) || contains_text part s

abbrev virtual_names : List Bytes
virtual_names =
    codes "vmware"
    ∷ codes "vmnet"
    ∷ codes "virtualbox"
    ∷ codes "vbox"
    ∷ codes "docker"
    ∷ codes "br-"
    ∷ codes "hyper-v"
    ∷ codes "vpn"
    ∷ codes "tap"
    ∷ codes "tun"
    ∷ codes "virbr"
    ∷ codes "veth"
    ∷ []

unfoldable pub has_ipv4 : Option (List Bool) → Bool
has_ipv4 none = false
has_ipv4 (some addrs) = any (λ is_ipv4. is_ipv4) addrs

-- The tests of multicastInterfaces. `lower` is strings.ToLower.
unfoldable pub is_usable : (Bytes → Bytes) → Interface → Bool
is_usable lower i =
    i.up
    && i.multicast
    && not i.loopback
    && not (any (λ name. contains_text name (lower i.name)) virtual_names)
    && has_ipv4 i.addrs

-- multicastInterfaces; `none` is the error of net.Interfaces.
unfoldable pub multicast_interfaces : (Bytes → Bytes) → Option (List Interface) → List Interface
multicast_interfaces lower none = []
multicast_interfaces lower (some interfaces) = keep (is_usable lower) interfaces

-- Start: the interfaces that are listened and sent on; `none` is the default one.
unfoldable pub start : (Bytes → Bytes) → Option (List Interface) → List (Option Interface)
start lower interfaces = elim (multicast_interfaces lower interfaces) [
  | [] ↦ none ∷ []
  | (i ∷ rest) ↦ map some (i ∷ rest)
]
