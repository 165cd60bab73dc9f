-- ===== src/Relay/Delivery.antt =====
-- cmd/relay/main.go: a frame for a recipient who is offline reaches the recipient.
use iskra.Base.{
  ℕ, ◌≤◌, ◌<◌, ◌≡◌, ◌≢◌, ◌∙◌, ap, sym, subst, refl, inl, inr, Bool, true, false, ◌&&◌, ◌==◌, ltb,
  Option, some, none, List, [], ◌∷◌, ◌++◌, length, take, drop, any, any-append, length-take, arith,
  Option-cases, lt→ltb,
}
use iskra.Base.Bytes.{Bytes, zeros, ◌=?◌, =?_iff, =?_refl}
use iskra.Base.Dict.{lookup, lookup-insert}
use iskra.Base.Hex.{hex}
use iskra.Relay.{Relay, HoldEntry, Writes, queue, hold_max_per_uid, frames_to}
use iskra.Relay.Server.{
  register, deliver_held, connect, keys_of, mark_sender, count_frame, hold_frame, route, receive,
  disconnect, is_file_chunk,
}
use iskra.Relay.Pool.{Net, post_federation}
use iskra.Relay.Held.{
  is_held, Waits, save_hold-hold, queue-connect, queue-insert_self, receive-Waits, disconnect-hold,
  post_federation-hold,
}

-- Whether a connection is written a frame.
abbrev pub is_written : ℕ → Bytes → Writes → Bool
is_written conn frame writes = any (λ w. w.0 == conn && w.1 =? frame) writes

-- The steps in which a user stays offline.
pub data Meanwhile (net : Net) (uid : Bytes) (r : Relay) : Relay → Type 0 where
  at_once : Meanwhile net uid r r
  others_connect :
      {s : Relay} (writable : Bool) (now conn : ℕ) (alias msg ed_pub x25519_pub : Bytes)
      → keys_of msg ≡ some (ed_pub, x25519_pub)
      → hex (take 20 ed_pub) ≢ uid
      → Meanwhile net uid r s
      → Meanwhile net uid r (connect writable now conn alias msg s).0
  others_send :
      {s : Relay} (writable : Bool) (now : ℕ) (ed_pub input : Bytes)
      → Meanwhile net uid r s
      → Meanwhile net uid r (receive writable now ed_pub input s).0
  disconnects :
      {s : Relay} (conn : ℕ) (ed_pub : Bytes)
      → Meanwhile net uid r s
      → Meanwhile net uid r (disconnect conn ed_pub s)
  posts :
      {s : Relay} (now : ℕ) (src_ip : Bytes) (url : Option Bytes)
      → Meanwhile net uid r s
      → Meanwhile net uid r (post_federation net now src_ip url s).0

Meanwhile-Waits :
    (net : Net) (uid frame : Bytes) {r s : Relay}
    → Meanwhile net uid r s
    → Waits uid frame r
    → Waits uid frame s
Meanwhile-Waits net uid frame at_once w = w
Meanwhile-Waits net uid frame
      (others_connect {s = s} writable now conn alias msg ed_pub x25519_pub e n m) w =
    ap (is_held frame) (queue-connect writable now conn alias msg ed_pub x25519_pub uid s e n)
    ∙ Meanwhile-Waits net uid frame m w
Meanwhile-Waits net uid frame (others_send writable now ed_pub input m) w =
    receive-Waits uid frame writable now ed_pub input _ (Meanwhile-Waits net uid frame m w)
Meanwhile-Waits net uid frame (disconnects {s = s} conn ed_pub m) w =
    ap (λ h. is_held frame (queue uid h)) (disconnect-hold conn ed_pub s)
    ∙ Meanwhile-Waits net uid frame m w
Meanwhile-Waits net uid frame (posts {s = s} now src_ip url m) w =
    ap (λ h. is_held frame (queue uid h)) (post_federation-hold net now src_ip url s)
    ∙ Meanwhile-Waits net uid frame m w

-- What is held is written to the user on connection.
is_written-frames_to :
    (conn : ℕ) (frame : Bytes) (es : List HoldEntry)
    → is_held frame es ≡ true
    → is_written conn frame (frames_to conn es) ≡ true
unfolding any frames_to
is_written-frames_to conn frame [] h = cc
is_written-frames_to conn frame (e ∷ es) h = ground (arith, is_written-frames_to conn frame es)

is_written-append :
    (conn : ℕ) (frame : Bytes) (ws vs : Writes)
    → is_written conn frame ws ≡ true
    → is_written conn frame (ws ++ vs) ≡ true
is_written-append conn frame ws vs w = any-append _ ws vs ∙ rw w refl

is_held→length :
    (frame : Bytes) (es : List HoldEntry) → is_held frame es ≡ true → ltb 0 (length es) ≡ true
unfolding any
is_held→length frame [] h = cc
is_held→length frame (e ∷ es) h = ground arith

deliver_held-written :
    (writable : Bool) (conn : ℕ) (uid frame : Bytes) (r : Relay)
    → Waits uid frame r
    → is_written conn frame (deliver_held writable conn uid r).1 ≡ true
unfolding deliver_held
deliver_held-written writable conn uid frame r w =
    rw (deliver_held, is_held→length frame (queue uid r.hold) w)
      (is_written-frames_to conn frame (queue uid r.hold) w)

connect-written :
    (writable : Bool) (now conn : ℕ) (alias msg ed_pub x25519_pub frame : Bytes) (r : Relay)
    → keys_of msg ≡ some (ed_pub, x25519_pub)
    → Waits (hex (take 20 ed_pub)) frame r
    → is_written conn frame (connect writable now conn alias msg r).1 ≡ true
unfolding connect register
connect-written writable now conn alias msg ed_pub x25519_pub frame r e w =
    rw (connect, e)
      (is_written-append conn frame _ _ (
        deliver_held-written writable conn (hex (take 20 ed_pub)) frame
          (register now conn alias ed_pub x25519_pub r) w))

-- A client who is offline stays so when another one is marked.
mark_sender-offline :
    (now : ℕ) (k uid : Bytes) (r : Relay)
    → lookup uid r.clients ≡ none
    → lookup uid (mark_sender now k r).clients ≡ none
unfolding mark_sender
mark_sender-offline now k uid r h = elim (Option-cases (lookup k r.clients)) [
  | inl e ↦ rw (mark_sender, e) h
  | inr (ci, e) ↦ rw (mark_sender, e, lookup-insert) (ground (arith, =?_iff k uid, e, h))
]

hold_frame-held :
    (now : ℕ) (uid frame : Bytes) (r : Relay)
    → length (queue uid r.hold) < hold_max_per_uid
    → Waits uid frame (hold_frame now uid frame r)
unfolding hold_frame any
hold_frame-held now uid frame r room =
    rw (hold_frame, lt→ltb (length (queue uid r.hold)) hold_max_per_uid room)
      (ap (is_held frame) (queue-insert_self uid _ r.hold)
        ∙ any-append _ (queue uid r.hold) _
        ∙ ground (arith, =?_refl frame))

take-length : (input : Bytes) → 20 ≤ length input → length (take 20 input) ≡ 20
take-length input long = length-take 20 input ∙ omega arith

receive-held :
    (writable : Bool) (now : ℕ) (ed_pub input : Bytes) (r : Relay)
    → 20 ≤ length input
    → is_file_chunk (drop 20 input) ≡ false
    → take 20 input ≢ zeros 20
    → lookup (hex (take 20 input)) r.clients ≡ none
    → length (queue (hex (take 20 input)) r.hold) < hold_max_per_uid
    → Waits
        (hex (take 20 input))
        (take 20 ed_pub ++ drop 20 input)
        (receive writable now ed_pub input r).0
unfolding receive route
receive-held writable now ed_pub input r long chunk direct off room =
    rw (receive, not_short, chunk, route, not_zero, absent, save_hold-hold)
      (hold_frame-held now (hex (take 20 input)) _ marked (unfold mark_sender count_frame in room))
  where
    uid : Bytes
    uid = hex (take 20 ed_pub)

    marked : Relay
    marked = mark_sender now uid (count_frame (length input) r)

    not_short : ltb (length input) 20 ≡ false
    not_short = ground arith

    not_zero : (take 20 input =? zeros (length (take 20 input))) ≡ false
    not_zero =
        ap (λ n. take 20 input =? zeros n) (take-length input long)
        ∙ ground (arith, =?_iff (take 20 input) (zeros 20), direct)

    absent : lookup (hex (take 20 input)) marked.clients ≡ none
    absent =
        mark_sender-offline now uid _ (count_frame (length input) r) (unfold count_frame in off)

-- A frame for a recipient who is offline and whose queue has room, which is no file chunk and no
-- broadcast, is written to the recipient under the sender's prefix on the next connection, after
-- whatever connections of others, frames, disconnections and federation posts lie between.
pub connect_delivers :
    (net : Net) (writable : Bool) (now : ℕ) (ed_pub input : Bytes) (r : Relay)
    → 20 ≤ length input
    → is_file_chunk (drop 20 input) ≡ false
    → take 20 input ≢ zeros 20
    → lookup (hex (take 20 input)) r.clients ≡ none
    → length (queue (hex (take 20 input)) r.hold) < hold_max_per_uid
    → (s : Relay) → Meanwhile net (hex (take 20 input)) (receive writable now ed_pub input r).0 s
    → (later conn : ℕ) (alias msg key x25519_pub : Bytes) → keys_of msg ≡ some (key, x25519_pub)
    → take 20 key ≡ take 20 input
    → is_written conn (take 20 ed_pub ++ drop 20 input) (connect writable later conn alias msg s).1
      ≡ true
connect_delivers net writable now ed_pub input r long chunk direct off room s m later conn alias msg
      key x25519_pub e own =
    connect-written writable later conn alias msg key x25519_pub _ s e (
      subst (λ k. Waits (hex k) (take 20 ed_pub ++ drop 20 input) s) (sym own)
        (Meanwhile-Waits net _ _ m
          (receive-held writable now ed_pub input r long chunk direct off room)))
