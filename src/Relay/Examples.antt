-- ===== src/Relay/Examples.antt =====
-- cmd/relay/main.go: the theorems at concrete inputs.
use iskra.Base.{
  ◌≡◌, ◌≢◌, ◌++◌, ◌≤◌, ◌<◌, refl, true, false, none, some, [], ◌∷◌, length, take, drop, replicate,
  arith,
}
use iskra.Base.Bytes.{Bytes, codes, zeros}
use iskra.Base.Dict.{lookup}
use iskra.Base.Hex.{hex}
use iskra.Relay.{Relay, queue, start_relay, load_hold}
use iskra.Relay.Server.{keys_of, is_file_chunk, connect, receive}
use iskra.Relay.Pool.{Net, post_federation}
use iskra.Relay.Limits.{IsBounded}
use iskra.Relay.Bounds.{starts, posts, Reach-IsBounded}
use iskra.Relay.Delivery.{at_once, is_written, connect_delivers}

-- A network in which every address has its own host.
abbrev net : Net
net = record { scheme_host = λ s. some (codes "wss", s); lower = λ s. s; ip_is_local = λ s. none }

abbrev posted : Relay
posted = (post_federation net 100 (codes "1.2.3.4") (some (codes "wss://a")) (start_relay 5 none)).0

posted_example : IsBounded net posted
posted_example =
    Reach-IsBounded net (posts 100 (codes "1.2.3.4") (some (codes "wss://a")) (starts none 5 tt))

abbrev key : Bytes
key = 1 ∷ zeros 31

abbrev input : Bytes
input = 1 ∷ (zeros 19 ++ 5 ∷ 6 ∷ [])

abbrev waiting : Relay
waiting = (receive true 7 (zeros 32) input (start_relay 5 none)).0

taken : take 20 key ≡ take 20 input
unfolding take zeros replicate
taken = refl

nobody : lookup (hex (take 20 input)) (start_relay 5 none).clients ≡ none
unfolding start_relay load_hold lookup
nobody = refl

room : length (queue (hex (take 20 input)) (start_relay 5 none).hold) < 200
unfolding start_relay load_hold queue lookup
room = omega arith

not_chunk : is_file_chunk (drop 20 input) ≡ false
unfolding is_file_chunk drop zeros replicate
not_chunk = refl

long : 20 ≤ length input
unfolding zeros replicate
long = omega arith

direct : take 20 input ≢ zeros 20
unfolding take zeros replicate
direct h = cc

keys : keys_of key ≡ some (key, zeros 32)
unfolding keys_of zeros replicate take
keys = refl

connect_example :
    is_written 9
      (take 20 (zeros 32) ++ drop 20 input)
      (connect true 8 9 (codes "fox") key waiting).1
    ≡ true
connect_example =
    connect_delivers net true 7 (zeros 32) input (start_relay 5 none) long not_chunk direct nobody
      room waiting at_once 8 9 (codes "fox") key key (zeros 32) keys taken
