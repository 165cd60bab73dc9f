-- ===== src/Mesh/RelayClient/Examples.antt =====
-- internal/mesh/relay.go: the theorem at a concrete input, and tests of the addresses.
use iskra.Base.{◌≡◌, refl, ap, suc, true, false, some, none, [], ◌∷◌, take, drop, arith}
use iskra.Base.Bytes.{Bytes, codes, zeros, zeros-IsArray, ◌=?◌}
use iskra.Base.Dict.{insert, lookup-insert_self}
use iskra.Base.Hex.{hex}
use iskra.Message.{Message, IsTyped}
use iskra.Message.Examples.{sample, sample-IsTyped}
use iskra.Relay.{Relay, ClientInfo}
use iskra.Relay.Server.{receive}
use iskra.Mesh.RelayClient.{RelayClient, arrived, http_of, strip_ws, send_message, read_frame}
use iskra.Mesh.RelayClient.Relayed.{conn_of, read_frame-send_message}

abbrev client : RelayClient
client = record {
  url = codes "wss://relay/ws";
  http_url = codes "https://relay";
  pub_key = zeros 32;
  x25519_pub = zeros 32;
  conn = some 1;
  has_on_message = true;
  has_on_sync = false;
  connected = true;
}

abbrev recipient : Bytes
recipient = 1 ∷ zeros 19

abbrev letter : Message
letter = record (sample 2 9) { recipient_id = recipient }

letter-IsTyped : IsTyped letter
letter-IsTyped =
    let t = sample-IsTyped 2 9 (omega arith) (omega arith) in
    record {
      version_byte = t.version_byte;
      id_array = t.id_array;
      recipient_array = (ap suc (zeros-IsArray 19).0, (omega arith, (zeros-IsArray 19).1));
      ttl_word = t.ttl_word;
      timestamp_word = t.timestamp_word;
      content_byte = t.content_byte;
      ephemeral_array = t.ephemeral_array;
      nonce_array = t.nonce_array;
      payload_bytes = t.payload_bytes;
      author_array = t.author_array;
      x25519_array = t.x25519_array;
      signature_array = t.signature_array;
      pow_word = t.pow_word;
    }

abbrev online : ClientInfo
online = record { conn = 2; ed_pub = recipient; x25519_pub = []; has_sent = false }

abbrev server : Relay
server = record {
  clients = insert (hex recipient) online [];
  aliases = [];
  hold = [];
  known_peers = [];
  last_sync = [];
  known_relays = [];
  federation_rate = [];
  stats = record {
    msg_relayed = 0;
    bytes_relayed = 0;
    connections = 0;
    files_blocked = 0;
    hold_stored = 0;
    hold_delivered = 0;
  };
  saved = none;
}

relayed_example :
    (frame : Bytes) × (out : Bytes) × (send_message letter client ≡ some frame)
    × ((receive true 5 (zeros 32) frame server).1 ≡ (2, out) ∷ [])
    × (read_frame out client ≡ arrived letter ∷ [])
relayed_example =
    read_frame-send_message true 5 1 2 client client letter server refl (zeros-IsArray 32).0
      letter-IsTyped (omega arith) (omega arith) (omega arith) (unfold zeros ◌=?◌ in refl)
      (ap conn_of (lookup-insert_self (hex recipient) online [])) refl

http_test :
    (http_of (codes "wss://a/ws") ≡ some (codes "https://a"))
    × (http_of (codes "ws://a/ws") ≡ some (codes "https//a"))
    × (http_of (codes "ws") ≡ none)
unfolding http_of strip_ws take drop ◌=?◌
http_test = (refl, refl, refl)
