-- ===== src/Mesh/Udp.antt =====
-- internal/mesh/udp.go and cmd/udp-relay/main.go: the disguised datagrams, what a node sends and
-- takes, and the relay between nodes. Both files have their own copy of the disguise. An address is a
-- number. The sockets are left out; a datagram holds at most 65507 bytes.
pub mod Sent
mod Examples
use iskra.Base.{
  ℕ, zero, suc, ◌+◌, ◌*◌, ◌%◌, ◌==◌, ◌||◌, not, ltb, leb, if◌then◌else◌, Bool, true, false, Option,
  some, none, List, [], ◌∷◌, ◌++◌, length, take, drop,
}
use iskra.Base.Bytes.{Bytes, codes, zeros, ◌=?◌}
use iskra.Base.Dict.{Dict, lookup, insert}
use iskra.Base.Hex.{hex}
use iskra.Crypto.{Primitives}
use iskra.Crypto.Stream.{xor_bytes}
use iskra.Message.{Message}
use iskra.Message.Wire.{Result, ok, err, serialize, deserialize}

abbrev pub nonce_size : ℕ
nonce_size = 8

abbrev pub id_size : ℕ
id_size = 20

-- networkObfKey: the second half is Russian, in UTF-8.
abbrev pub network_obf_key : Bytes
network_obf_key =
    codes "iskra-udp-v1-"
    ++ 208 ∷ 190 ∷ 208 ∷ 177 ∷ 209 ∷ 132 ∷ 209 ∷ 131 ∷ 209 ∷ 129 ∷ 208 ∷ 186 ∷ 208 ∷ 176 ∷ 209 ∷ 134
      ∷ 208 ∷ 184 ∷ 209 ∷ 143 ∷ 45 ∷ 209 ∷ 129 ∷ 208 ∷ 181 ∷ 209 ∷ 130 ∷ 208 ∷ 184 ∷ []

-- The loop of generateKeyStream. The counter is a byte and wraps. Each round adds the bytes of one
-- MAC, so that as many rounds as bytes are enough.
unfoldable pub key_loop : Primitives → Bytes → ℕ → ℕ → ℕ → Bytes → Bytes
key_loop p iv len zero counter stream = stream
key_loop p iv len (suc fuel) counter stream =
    let rest =
      key_loop p iv len fuel ((counter + 1) % 256)
        (stream ++ p.hmac network_obf_key (iv ++ counter ∷ [])) in
    if ltb (length stream) len then rest else stream

-- generateKeyStream
unfoldable pub generate_key_stream : Primitives → Bytes → ℕ → Bytes
generate_key_stream p iv len = take len (key_loop p iv len len 0 [])

-- obfuscate, with the nonce that was drawn
unfoldable pub obfuscate : Primitives → Bytes → Bytes → Bytes
obfuscate p iv data' = iv ++ xor_bytes data' (generate_key_stream p iv (length data'))

-- deobfuscate
unfoldable pub deobfuscate : Primitives → Bytes → Option Bytes
deobfuscate p packet =
    if ltb (length packet) (nonce_size + 1)
    then none
    else (let encrypted = drop nonce_size packet in
        some
          (xor_bytes encrypted (generate_key_stream p (take nonce_size packet) (length encrypted))))

-- SendMessage, as the datagram it writes; `my_id` is the first 20 bytes of the own key.
unfoldable pub send_message : Primitives → Bytes → Bytes → Message → Bytes
send_message p iv my_id msg = obfuscate p iv (my_id ++ (msg.recipient_id ++ serialize msg))

-- sendRegistration
unfoldable pub send_registration : Primitives → Bytes → Bytes → Bytes
send_registration p iv my_id = obfuscate p iv (my_id ++ zeros id_size)

-- What readLoop makes of the plain bytes of a datagram.
unfoldable pub message_in : Bytes → Option Message
message_in data' =
    if ltb (length data') (id_size * 2 + 230)
    then none
    else (elim (deserialize (drop (id_size * 2) data')) [ ok msg ↦ some msg | err e ↦ none ])

-- One round of readLoop: the message that is handed on.
unfoldable pub read_packet : Primitives → Bytes → Option Message
read_packet p packet =
    if ltb (length packet) (nonce_size + id_size * 2)
    then none
    else (elim (deobfuscate p packet) [ none ↦ none | some data' ↦ message_in data' ])

-- A client of the relay.
pub record Client : Type 0 where
  pub addr : ℕ
  pub last_seen : ℕ

-- What the relay does with the plain bytes of a datagram: where they are sent on, if anywhere.
unfoldable pub destination : Bytes → Dict Client → Option ℕ
destination data' clients =
    let recipient = take id_size (drop id_size data') in
    if (recipient =? zeros (length recipient)) || leb (length data') (id_size * 2)
    then none
    else (elim (lookup (hex recipient) clients) [ none ↦ none | some dest ↦ some dest.addr ])

-- One round of the relay's readLoop, with the nonce that it draws for the datagram it sends.
unfoldable pub relay_packet :
    Primitives → Bytes → ℕ → ℕ → Bytes → Dict Client → Dict Client × Option (ℕ × Bytes)
relay_packet p iv now addr packet clients =
    if ltb (length packet) (nonce_size + id_size * 2)
    then (clients, none)
    else (elim (deobfuscate p packet) [
      | none ↦ (clients, none)
      | some data' ↦
          if ltb (length data') (id_size * 2)
          then (clients, none)
          else (let known =
                insert (hex (take id_size data')) (record { addr = addr; last_seen = now })
                  clients in
              (
                known,
                elim (destination data' known) [
                  | none ↦ none
                  | some dest ↦ some (dest, obfuscate p iv data')
                ],
              ))
    ])

-- cleanupLoop of the relay
unfoldable pub active_clients : ℕ → Dict Client → Dict Client
active_clients now [] = []
active_clients now ((id, c) ∷ clients) =
    let rest = active_clients now clients in
    if ltb (c.last_seen + 5 * 60) now then rest else (id, c) ∷ rest
