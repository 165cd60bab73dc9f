-- ===== src/Mesh/Discovery/Examples.antt =====
-- internal/mesh/discovery.go: the theorems at concrete inputs.
use iskra.Base.{
  ◌≡◌, refl, not, ◌&&◌, ◌||◌, true, false, some, none, [], ◌∷◌, if◌then◌else◌, arith, keep, any,
  List,
}
use iskra.Base.Bytes.{Bytes, codes, zeros, zeros-IsArray, ◌=?◌}
use iskra.Base.Dict.{lookup}
use iskra.Mesh.Discovery.{
  PeerCall, Discovery, new_discovery, set_on_peer, make_beacon, hear_beacon, Datagram, listen,
  Interface, start, multicast_interfaces, is_usable, contains_text, starts_with, has_ipv4,
}
use iskra.Mesh.Discovery.Beacon.{heard, hear_beacon-make_beacon}
use iskra.Mesh.Discovery.Cooldown.{Apart, next_call, is_about, listen-Apart}

abbrev here : Discovery
here = set_on_peer (new_discovery (1 ∷ []) 4243 [])

abbrev there : Discovery
there = new_discovery (zeros 32) 4244 []

abbrev address : Bytes
address = codes "10.0.0.2"

abbrev heard_once : Discovery × List PeerCall
heard_once = hear_beacon 7 address (make_beacon 3 there) here

beacon_example :
    ((j : Bytes)
      → lookup j heard_once.0.peers ≡ (
          if not (zeros 32 =? 1 ∷ []) && zeros 32 =? j
          then some (heard 7 (zeros 32) address 4244 none)
          else none))
    × (lookup (zeros 32) heard_once.0.cooldown
        ≡ (if zeros 32 =? 1 ∷ [] || false then none else some 7))
    × (heard_once.1 ≡ (
        if zeros 32 =? 1 ∷ [] || (false || not true)
        then []
        else record { time = 7; pub_key = zeros 32; ip = address; port = 4244 } ∷ []))
unfolding new_discovery set_on_peer lookup
beacon_example =
    hear_beacon-make_beacon 7 3 address here there (zeros-IsArray 32).0 (omega arith)
      (record { unique = tt; keyed = λ k p e. cc })

-- Two beacons a second apart.
abbrev twice : List Datagram
twice =
    record { time = 5; ip = address; content = make_beacon 3 there }
    ∷ record { time = 1000000005; ip = address; content = make_beacon 4 there }
    ∷ []

cooldown_example :
    Apart (next_call (zeros 32) here) (keep (is_about (zeros 32)) (listen twice here).1)
cooldown_example = listen-Apart (zeros 32) twice here

abbrev wlan : Interface
wlan = record {
  name = codes "wlan0";
  up = true;
  multicast = true;
  loopback = false;
  addrs = some (false ∷ true ∷ []);
}

start_test :
    (start (λ s. s) (some (wlan ∷ record wlan { name = codes "my-vpn" } ∷ [])) ≡ some wlan ∷ [])
    × (start (λ s. s) none ≡ none ∷ [])
unfolding start multicast_interfaces keep is_usable any contains_text starts_with ◌=?◌ has_ipv4
start_test = (refl, refl)
