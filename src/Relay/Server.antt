-- ===== src/Relay/Server.antt =====
-- cmd/relay/main.go: handleWS as the steps of one connection. `connect` is all up to the read loop,
-- `receive` one round of the loop, `disconnect` what follows it.
use iskra.Base.{
  ℕ, ◌+◌, ◌*◌, Bool, true, false, not, ◌&&◌, ◌==◌, ltb, if◌then◌else◌, Option, some, none, [], ◌∷◌,
  ◌++◌, length, take, drop, get_or,
}
use iskra.Base.Bytes.{Bytes, codes, ◌=?◌, zeros}
use iskra.Base.Dict.{lookup, insert, remove}
use iskra.Base.Hex.{hex}
use iskra.Relay.{
  Relay, ClientInfo, Writes, queue, save_hold, broadcast_except, frames_to, hold_max_per_uid,
}

-- The keys in the first message of a client; another length ends the connection.
unfoldable pub keys_of : Bytes → Option (Bytes × Bytes)
keys_of msg =
    if length msg == 64
    then some (take 32 msg, drop 32 msg)
    else if length msg == 32
    then some (msg, zeros 32)
    else none

-- Whether the entry of a client that was online is known to have sent.
unfoldable pub clipper : Option ClientInfo → Bool
clipper none = true
clipper (some ci) = not ci.has_sent

-- The client's registration. A client that was online is replaced, and its connection is closed.
unfoldable pub register : ℕ → ℕ → Bytes → Bytes → Bytes → Relay → Relay
register now conn alias ed_pub x25519_pub r =
    let uid = hex (take 20 ed_pub) in
    record r {
      clients =
          insert uid
            (record { conn = conn; ed_pub = ed_pub; x25519_pub = x25519_pub; has_sent = false })
            r.clients;
      aliases = insert uid alias r.aliases;
      known_peers =
          insert uid
            (record {
              ed_pub_hex = hex ed_pub;
              x25519_hex = hex x25519_pub;
              user_id = uid;
              last_seen = now;
              is_clipper = clipper (lookup uid r.clients);
            })
            r.known_peers;
    }

-- The held messages are taken out of the hold and written to the client.
unfoldable pub deliver_held : Bool → ℕ → Bytes → Relay → Relay × Writes
deliver_held writable conn uid r =
    let held = queue uid r.hold in
    let r1 : Relay = record r { hold = remove uid r.hold } in
    if ltb 0 (length held)
    then (
      save_hold writable (record r1 {
        stats = record r1.stats { hold_delivered = r1.stats.hold_delivered + length held };
      }),
      frames_to conn held,
    )
    else (r1, [])

-- The others are told of a client, at most once in five minutes.
unfoldable pub sync_due : ℕ → Option ℕ → Bool
sync_due now none = true
sync_due now (some last) = ltb (last + 5 * 60) now

unfoldable pub notify : ℕ → Bytes → Bytes → Relay → Relay × Writes
notify now uid ed_pub r =
    let r1 : Relay = record r {
      stats = record r.stats { connections = r.stats.connections + 1 };
    } in
    if sync_due now (lookup uid r.last_sync)
    then (
      record r1 { last_sync = insert uid now r1.last_sync },
      broadcast_except uid (take 20 ed_pub ++ codes "NEWSYNC") r1,
    )
    else (r1, [])

-- handleWS up to its loop. `alias` is what pickAlias draws.
unfoldable pub connect : Bool → ℕ → ℕ → Bytes → Bytes → Relay → Relay × Writes
connect writable now conn alias msg r = elim (keys_of msg) [
  | none ↦ (r, [])
  | some (ed_pub, x25519_pub) ↦
      let uid = hex (take 20 ed_pub) in
      let (r1, held) =
        deliver_held writable conn uid (register now conn alias ed_pub x25519_pub r) in
      let (r2, told) = notify now uid ed_pub r1 in (r2, held ++ told)
]

-- A file chunk, by the content type behind the 20 bytes of the recipient.
unfoldable pub is_file_chunk : Bytes → Bool
is_file_chunk msg_data = ltb 65 (length msg_data) && get_or msg_data 65 0 == 6

-- The marks of a client that has sent.
unfoldable pub mark_sender : ℕ → Bytes → Relay → Relay
mark_sender now uid r = record r {
  clients = elim (lookup uid r.clients) [
    | none ↦ r.clients
    | some ci ↦ insert uid (record ci { has_sent = true }) r.clients
  ];
  known_peers = elim (lookup uid r.known_peers) [
    | none ↦ r.known_peers
    | some kp ↦ insert uid (record kp { is_clipper = false; last_seen = now }) r.known_peers
  ];
}

unfoldable pub count_frame : ℕ → Relay → Relay
count_frame size r = record r {
  stats = record r.stats {
    msg_relayed = r.stats.msg_relayed + 1;
    bytes_relayed = r.stats.bytes_relayed + size;
  };
}

-- The frame for a recipient who is offline.
unfoldable pub hold_frame : ℕ → Bytes → Bytes → Relay → Relay
hold_frame now uid frame r =
    let entries = queue uid r.hold in
    if ltb (length entries) hold_max_per_uid
    then record r {
      hold = insert uid (entries ++ record { frame = frame; timestamp = now } ∷ []) r.hold;
      stats = record r.stats { hold_stored = r.stats.hold_stored + 1 };
    }
    else r

-- Where a frame goes: to all, to its recipient, or into the hold and to all.
unfoldable pub route : Bool → ℕ → Bytes → Bytes → Bytes → Relay → Relay × Writes
route writable now uid recipient frame r =
    if recipient =? zeros (length recipient)
    then (r, broadcast_except uid frame r)
    else (elim (lookup (hex recipient) r.clients) [
      | some target ↦ (r, (target.conn, frame) ∷ [])
      | none ↦
          let r1 = save_hold writable (hold_frame now (hex recipient) frame r) in
          (r1, broadcast_except uid frame r1)
    ])

-- One round of the read loop, of the client with the given key.
unfoldable pub receive : Bool → ℕ → Bytes → Bytes → Relay → Relay × Writes
receive writable now ed_pub input r =
    let uid = hex (take 20 ed_pub) in
    let msg_data = drop 20 input in
    if ltb (length input) 20
    then (r, [])
    else if is_file_chunk msg_data
    then (record r { stats = record r.stats { files_blocked = r.stats.files_blocked + 1 } }, [])
    else route writable now uid (take 20 input) (take 20 ed_pub ++ msg_data)
        (mark_sender now uid (count_frame (length input) r))

-- The end of handleWS: a client that was replaced meanwhile stays registered.
unfoldable pub disconnect : ℕ → Bytes → Relay → Relay
disconnect conn ed_pub r =
    let uid = hex (take 20 ed_pub) in
    elim (lookup uid r.clients) [
      | none ↦ r
      | some ci ↦
          if ci.conn == conn
          then record r { clients = remove uid r.clients; aliases = remove uid r.aliases }
          else r
    ]
