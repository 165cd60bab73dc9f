-- ===== src/Mesh/RelayClient/Relayed.antt =====
-- internal/mesh/relay.go and cmd/relay/main.go: a message from one client to another.
use iskra.Base.{
  ℕ, ◌≤◌, ◌≡◌, ◌≢◌, ◌∙◌, refl, sym, ap, inl, inr, Bool, true, false, ◌==◌, ltb, Option, some,
  some-injective, none, [], ◌∷◌, ◌++◌, append-nil, length, take, take_exact, drop_exact,
  length-append, length-take, arith, Option-cases,
}
use iskra.Base.Bytes.{Bytes, zeros, ◌=?◌, =?_iff}
use iskra.Base.Dict.{lookup, lookup-insert}
use iskra.Base.Hex.{hex}
use iskra.Message.{Message, IsTyped, content_file_chunk}
use iskra.Message.Wire.{serialize, deserialize, ok, max_payload_len}
use iskra.Message.Wire.RoundTrip.{deserialize-serialize, serialize_long}
use iskra.Message.Wire.Fields.{get_or-serialize}
use iskra.Relay.{Relay, ClientInfo}
use iskra.Relay.Server.{is_file_chunk, mark_sender, count_frame, route, receive}
use iskra.Mesh.RelayClient.{RelayClient, arrived, parsed_event, send_message, read_frame}

-- The connection of a client, as the server finds it.
abbrev pub conn_of : Option ClientInfo → Option ℕ
conn_of none = none
conn_of (some ci) = some ci.conn

-- Marking a sender changes nobody's connection.
mark_sender-conn :
    (now : ℕ) (k uid : Bytes) (r : Relay)
    → conn_of (lookup uid (mark_sender now k r).clients) ≡ conn_of (lookup uid r.clients)
unfolding mark_sender
mark_sender-conn now k uid r = elim (Option-cases (lookup k r.clients)) [
  | inl e ↦ rw (mark_sender, e) refl
  | inr (ci, e) ↦ rw (mark_sender, e, lookup-insert) (ground (arith, =?_iff k uid, e))
]

no_conn : (conn : ℕ) → none ≡ some conn → ⊥
no_conn conn e = cc

-- A frame for a client who is online is written to that client alone.
route-online :
    (writable : Bool) (now : ℕ) (uid recipient frame : Bytes) (r : Relay) (conn : ℕ)
    → (recipient =? zeros (length recipient)) ≡ false
    → conn_of (lookup (hex recipient) r.clients) ≡ some conn
    → (route writable now uid recipient frame r).1 ≡ (conn, frame) ∷ []
unfolding route
route-online writable now uid recipient frame r conn some_one online =
    elim (Option-cases (lookup (hex recipient) r.clients)) [
      | inl e ↦ absurd (no_conn conn (rw e at online))
      | inr (ci, e) ↦
          rw (route, some_one, e)
            (ap (λ c. (c, frame) ∷ []) (some-injective ci.conn conn (rw e at online)))
    ]

-- What a client reads from the frame of a message.
read_frame-serialize :
    (from : Bytes) (m : Message) (rc : RelayClient)
    → length from ≡ 20
    → IsTyped m
    → 2 ≤ m.version
    → length m.payload ≤ max_payload_len
    → rc.has_on_message ≡ true
    → read_frame (from ++ serialize m) rc ≡ arrived m ∷ []
unfolding read_frame parsed_event
read_frame-serialize from m rc size t v fits on =
    let long = serialize_long m t in
    let parsed : deserialize (serialize m) ≡ ok m =
      ap deserialize (sym (append-nil (serialize m))) ∙ deserialize-serialize m [] t v fits in
    let l1 : ltb (length (from ++ serialize m)) 20 ≡ false =
      ground (arith, length-append from (serialize m), size) in
    let l2 : (length (serialize m) == 7) ≡ false = ground (arith, long) in
    rw (read_frame, l1, drop_exact 20 from (serialize m) size, l2, parsed, on) refl

not_chunk :
    (m : Message)
    → IsTyped m
    → m.content_type ≢ content_file_chunk
    → is_file_chunk (serialize m) ≡ false
unfolding is_file_chunk
not_chunk m t other = ground (arith, get_or-serialize m t, other, serialize_long m t)

-- A message that a connected client sends to a user who is connected to the same relay is written
-- to that user's connection and nobody else's, and his client reads the same message from it. The
-- message must be of version 2 or later, with fields of their Go types and a payload of at most
-- 16 MiB, no file chunk and no broadcast.
pub read_frame-send_message :
    (writable : Bool) (now c conn : ℕ) (from to : RelayClient) (m : Message) (r : Relay)
    → from.conn ≡ some c
    → length from.pub_key ≡ 32
    → IsTyped m
    → 2 ≤ m.version
    → length m.payload ≤ max_payload_len
    → m.content_type ≢ content_file_chunk
    → (m.recipient_id =? zeros 20) ≡ false
    → conn_of (lookup (hex m.recipient_id) r.clients) ≡ some conn
    → to.has_on_message ≡ true
    → (frame : Bytes) × (out : Bytes) × (send_message m from ≡ some frame)
      × ((receive writable now from.pub_key frame r).1 ≡ (conn, out) ∷ [])
      × (read_frame out to ≡ arrived m ∷ [])
unfolding send_message receive
read_frame-send_message writable now c conn from to m r linked size t v fits other one online on =
    let frame = m.recipient_id ++ serialize m in
    let long : ltb (length frame) 20 ≡ false =
      ground (arith, length-append m.recipient_id (serialize m), t.recipient_array.0) in
    let one' : (m.recipient_id =? zeros (length m.recipient_id)) ≡ false =
      ap (λ n. m.recipient_id =? zeros n) t.recipient_array.0 ∙ one in
    let uid = hex (take 20 from.pub_key) in
    let marked = mark_sender now uid (count_frame (length frame) r) in
    (
      frame,
      take 20 from.pub_key ++ serialize m,
      rw (send_message, linked) refl,
      rw
          (
            receive,
            long,
            drop_exact 20 m.recipient_id (serialize m) t.recipient_array.0,
            take_exact 20 m.recipient_id (serialize m) t.recipient_array.0,
            not_chunk m t other,
          )
          (route-online writable now uid m.recipient_id (take 20 from.pub_key ++ serialize m) marked
            conn one'
            (mark_sender-conn now uid (hex m.recipient_id) (count_frame (length frame) r)
              ∙ (unfold count_frame in online))),
      read_frame-serialize (take 20 from.pub_key) m to
          (omega (arith, length-take 20 from.pub_key, size)) t v fits on,
    )
