-- ===== src/Web/Send.antt =====
-- internal/web/api.go: HandleMessages and HandleLetters, what they do with a message to send. The body
-- of the request is `none` where it does not parse.
use iskra.Base.{
  ℕ, Bool, true, ◌&&◌, ◌||◌, ltb, if◌then◌else◌, Option, some, none, List, [], ◌∷◌, ◌++◌,
}
use iskra.Base.Bytes.{Bytes, codes, ◌=?◌, zeros}
use iskra.Base.Hex.{hex}
use iskra.Identity.{user_id, to_base58, from_base58}
use iskra.Message.{Message, content_text, content_letter}
use iskra.Message.Create.{RecipientKeys}
use iskra.Store.Bloom.{add}
use iskra.Store.Contacts.{Contact, get_by_user_id}
use iskra.Store.Hold.{store}
use iskra.Store.Inbox.{InboxMessage, add_inbox}
use iskra.Web.{
  Env, Moment, Links, Api, Sent, by_dns, copy_key, create_message, lan_send, relay_send,
}

-- The reply of a handler that sends: an HTTP error, or the status and the id of the message.
pub data Reply : Type 0 where
  http_error : ℕ → Reply
  accepted : Bytes → Bytes → Reply

-- The X25519 key of a contact, zero where it is unknown or does not decode.
unfoldable pub reply_key : Bytes → Bytes
reply_key text =
    if text =? []
    then zeros 32
    else (elim (from_base58 text) [ none ↦ zeros 32 | some bytes ↦ copy_key bytes ])

-- The keys of a contact; `none` where the public key does not decode.
unfoldable pub recipient_keys : Contact → Option RecipientKeys
recipient_keys contact = elim (from_base58 contact.pub_key) [
  | none ↦ none
  | some bytes ↦
      some (record { ed25519_pub = copy_key bytes; x25519_pub = reply_key contact.x25519_pub })
]

unfoldable pub status_text : Bool → Bytes
status_text sent = if sent then codes "sent" else codes "pending"

unfoldable pub peers_reached : Links → Bool
peers_reached links = links.has_transport && ltb 0 links.peer_count

-- The transports of HandleMessages: the local network, then the relay, else the DNS tunnel. The flag
-- says whether the status is "sent".
unfoldable pub transmit : Links → Message → List Sent × Bool
transmit links m =
    let lan = lan_send links m in
    if links.relay_connected
    then (lan ++ relay_send links m, peers_reached links || links.relay_sends)
    else if links.dns_connected
    then (
      lan ++ (if links.dns_sends then by_dns m ∷ [] else []),
      peers_reached links || links.dns_sends,
    )
    else (lan, peers_reached links)

-- Those of HandleLetters.
unfoldable pub transmit_letter : Links → Message → List Sent × Bool
transmit_letter links m = (
  lan_send links m ++ relay_send links m,
  peers_reached links || (links.relay_connected && links.relay_sends),
)

module _ (env : Env) (at : Moment) where
  -- `a.Bloom.Add(msg.ID)` and `a.Hold.Store(msg)`
  unfoldable pub remember : Message → Api → Api
  remember m a = record a {
    bloom = add env.primitives m.id a.bloom;
    hold = (store at.disk at.world.now a.hold m).0;
  }

  -- The inbox entry of a message that was sent.
  unfoldable pub outgoing_entry : Message → Bytes → Bytes → Api → InboxMessage
  outgoing_entry m text status a = record {
    id = hex m.id;
    from = user_id a.keypair.ed25519_pub;
    from_pub = to_base58 a.keypair.ed25519_pub;
    text = text;
    timestamp = m.timestamp;
    status = status;
    outgoing = true;
    msg_type = [];
    subject = [];
  }

  unfoldable pub keep_entry : Bytes → InboxMessage → Api → Api
  keep_entry uid entry a = record a {
    inbox = add_inbox env.sort_inbox at.world.now uid entry a.inbox;
  }

  -- A text message to a contact, once it is made.
  unfoldable pub dispatch : Bytes → Bytes → Message → Api → Api × List Sent × Reply
  dispatch uid text m a =
      let (sends, sent) = transmit at.links m in
      (
        keep_entry uid (outgoing_entry m text (status_text sent) a) (remember m a),
        sends,
        accepted (status_text sent) (hex m.id),
      )

  unfoldable pub dispatch_letter : Bytes → Bytes → Bytes → Message → Api → Api × List Sent × Reply
  dispatch_letter uid subject body m a =
      let (sends, sent) = transmit_letter at.links m in
      let entry : InboxMessage = record (outgoing_entry m body (status_text sent) a) {
        msg_type = codes "letter";
        subject = subject;
      } in
      (keep_entry uid entry (remember m a), sends, accepted (status_text sent) (hex m.id))

  -- What both handlers do before: the contact, its keys, the message.
  unfoldable pub to_contact :
      Bytes → ℕ → Bytes → (Message → Api → Api × List Sent × Reply) → Api → Api × List Sent × Reply
  to_contact uid ct payload go a = elim (get_by_user_id uid a.contacts) [
    | none ↦ (a, [], http_error 404)
    | some contact ↦ elim (recipient_keys contact) [
      | none ↦ (a, [], http_error 500)
      | some to ↦ elim (create_message env at 0 a.keypair to ct payload) [
        | none ↦ (a, [], http_error 500)
        | some m ↦ go m a
      ]
    ]
  ]

  -- HandleMessages, POST
  unfoldable pub handle_messages : Bytes → Option Bytes → Api → Api × List Sent × Reply
  handle_messages uid body a = if uid =? [] then (a, [], http_error 400) else (elim body [
    | none ↦ (a, [], http_error 400)
    | some text ↦ to_contact uid content_text text (dispatch uid text) a
  ])

  -- The payload of a letter, as fmt prints it.
  unfoldable pub letter_payload : Bytes → Bytes → Bytes
  letter_payload subject body =
      codes "{\"subject\":"
      ++ (env.quote subject ++ (codes ",\"body\":" ++ (env.quote body ++ codes "}")))

  -- HandleLetters, POST
  unfoldable pub handle_letters : Bytes → Option (Bytes × Bytes) → Api → Api × List Sent × Reply
  handle_letters uid body a = if uid =? [] then (a, [], http_error 400) else (elim body [
    | none ↦ (a, [], http_error 400)
    | some (subject, text) ↦
        to_contact uid content_letter (letter_payload subject text)
          (dispatch_letter uid subject text) a
  ])
