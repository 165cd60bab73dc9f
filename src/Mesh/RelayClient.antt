-- ===== src/Mesh/RelayClient.antt =====
-- internal/mesh/relay.go: the client of a relay. A websocket is a number; its frames and errors are
-- values. Wake-up requests and waiting are left out.
pub mod Relayed
mod Examples
use iskra.Base.{
  ℕ, ◌-◌, Bool, true, false, not, ◌&&◌, ◌||◌, ◌==◌, ltb, if◌then◌else◌, Option, some, none, List,
  [], ◌∷◌, ◌++◌, length, take, drop,
}
use iskra.Base.Bytes.{Bytes, codes, ◌=?◌, zeros}
use iskra.Message.{Message}
use iskra.Message.Wire.{Result, ok, err, serialize, deserialize}

pub record RelayClient : Type 0 where
  pub url : Bytes
  pub http_url : Bytes
  pub pub_key : Bytes
  pub x25519_pub : Bytes
  pub conn : Option ℕ
  pub has_on_message : Bool
  pub has_on_sync : Bool
  pub connected : Bool

-- The last three bytes of the URL are cut off where they are "/ws".
unfoldable pub strip_ws : Bytes → Bytes
strip_ws s =
    if ltb 4 (length s) && drop (length s - 3) s =? codes "/ws" then take (length s - 3) s else s

-- The HTTP address of a relay; `none` is the panic of `httpURL[3:]` on a text of one or two bytes.
unfoldable pub http_of : Bytes → Option Bytes
http_of url =
    if url =? []
    then some []
    else if ltb (length url) 3
    then none
    else some (strip_ws (codes "https" ++ drop 3 url))

-- NewRelayClient
unfoldable pub new_relay_client : Bytes → Bytes → Bytes → Option RelayClient
new_relay_client url pub_key x25519_pub = elim (http_of url) [
  | none ↦ none
  | some http_url ↦ some (record {
    url = url;
    http_url = http_url;
    pub_key = pub_key;
    x25519_pub = x25519_pub;
    conn = none;
    has_on_message = false;
    has_on_sync = false;
    connected = false;
  })
]

-- SetOnMessage and SetOnSyncRequest
unfoldable pub set_on_message : RelayClient → RelayClient
set_on_message rc = record rc { has_on_message = true }

unfoldable pub set_on_sync : RelayClient → RelayClient
set_on_sync rc = record rc { has_on_sync = true }

-- SendMessage and BroadcastMessage: the frame that is written; `none` is the error without a connection.
unfoldable pub send_message : Message → RelayClient → Option Bytes
send_message m rc = elim rc.conn [ none ↦ none | some c ↦ some (m.recipient_id ++ serialize m) ]

unfoldable pub broadcast_message : Message → RelayClient → Option Bytes
broadcast_message m rc = elim rc.conn [ none ↦ none | some c ↦ some (zeros 20 ++ serialize m) ]

-- connect: the frame that is written first. `dialled` is the new websocket, and `writes` says whether
-- the frame can be written; the flag is false for an error.
unfoldable pub handshake : RelayClient → Bytes
handshake rc = rc.pub_key ++ rc.x25519_pub

unfoldable pub connect : Option ℕ → Bool → RelayClient → RelayClient × Bool
connect none writes rc = (rc, false)
connect (some c) writes rc =
    if writes then (record rc { conn = some c; connected = true }, true) else (rc, false)

-- The error of ReadMessage in readLoop, or of a ping.
unfoldable pub lost : RelayClient → RelayClient
lost rc = record rc { conn = none; connected = false }

-- A round of reconnectLoop, with what the dialling gives.
unfoldable pub reconnect : Option ℕ → Bool → RelayClient → RelayClient
reconnect dialled writes rc = if rc.connected then rc else (connect dialled writes rc).0

-- What a client is told.
pub data Event : Type 0 where
  sync_request : Event
  arrived : Message → Event

unfoldable pub parsed_event : Result Message → List Event
parsed_event (ok m) = arrived m ∷ []
parsed_event (err e) = []

-- A round of readLoop, of a frame that was read.
unfoldable pub read_frame : Bytes → RelayClient → List Event
read_frame frame rc =
    let msg_data = drop 20 frame in
    if ltb (length frame) 20
    then []
    else if length msg_data == 7 && msg_data =? codes "NEWSYNC"
    then (if rc.has_on_sync then sync_request ∷ [] else [])
    else (let events = parsed_event (deserialize msg_data) in
        if rc.has_on_message then events else [])
