-- ===== src/Web/Delivery.antt =====
-- internal/web/api.go: a text and its delivery confirmation, from handler to handler.
use iskra.Base.{
  ℕ, ◌≡◌, ◌∙◌, refl, sym, ap, inl, inr, false, if◌then◌else◌, some, some-injective, none, ◌&&◌,
  ◌==◌, List, [], ◌∷◌, ◌++◌, append-nil, length, arith, Bool-cases, Option-cases,
}
use iskra.Base.Bytes.{Bytes, codes, ◌=?◌, zeros}
use iskra.Base.Hex.{hex}
use iskra.Crypto.{Laws}
use iskra.Identity.{user_id, to_base58}
use iskra.Message.{Message, content_text, content_delivery_confirm}
use iskra.Message.Create.{RecipientKeys, FlateLaws}
use iskra.Message.Create.Authentic.{IsAuthentic}
use iskra.Store.Contacts.{Contact, get_by_user_id, update_x25519}
use iskra.Store.Hold.{delete, has}
use iskra.Store.Hold.Kept.{has-delete}
use iskra.Store.First.{find, OwnIds}
use iskra.Store.History.{history}
use iskra.Store.History.Sorted.{Sorts}
use iskra.Store.History.Found.{kept_or, find-add_message}
use iskra.Store.Inbox.{InboxMessage, inbox_kind, add_inbox, mark_delivered}
use iskra.Store.Inbox.Marked.{find_message, delivered_too, find_message-mark_delivered}
use iskra.Web.{Env, Moment, Links, Api, Sent, by_lan, by_relay, by_dns, lan_send, relay_send}
use iskra.Web.Incoming.{
  received, into_inbox, seen_now, learn_key, receive_text, receive_confirm, receive_content,
  confirm_keys, send_delivery_confirm, handle_incoming,
}
use iskra.Web.Incoming.Survives.{start_of_id, learn_key-Runs}
use iskra.Web.Incoming.Opened.{CanSend, handle_incoming-create_message}
use iskra.Web.Send.{recipient_keys, to_contact, transmit, dispatch, handle_messages}

no_result : (a : Api) → none ≡ some a → ⊥
no_result a e = cc

learn_key_inbox :
    (env : Env) (at : Moment) (m : Message) (a a1 : Api)
    → learn_key env at m a ≡ some a1
    → a1.inbox ≡ a.inbox
unfolding learn_key
learn_key_inbox env at m a a1 e = elim (Bool-cases (m.author_x25519 =? zeros 32)) [
  | inl q ↦ sym (ap (λ (x : Api). x.inbox) (some-injective a a1 (rw (learn_key, q) at e)))
  | inr q ↦
      elim (Option-cases (
        update_x25519 env.primitives env.contacts_json at.world (user_id m.author_pub)
          (to_base58 m.author_x25519) a.contacts)) [
            | inl n ↦ absurd (no_result a1 (rw (learn_key, q, n) at e))
            | inr (c, s) ↦ sym (
                ap (λ (x : Api). x.inbox)
                  (some-injective (record a { contacts = c }) a1 (rw (learn_key, q, s) at e)))
          ]
]

-- A text puts its entry into the inbox and is confirmed.
receive_text_effect :
    (env : Env) (at : Moment) (m : Message) (t : Bytes) (b : Api)
    → (b' : Api) × (receive_text env at m t b ≡ some (b', send_delivery_confirm env at m b'))
      × (b'.inbox ≡ (into_inbox env at m (received env at m t) b).inbox)
unfolding receive_text seen_now
receive_text_effect env at m t b =
    let (b', e) =
      learn_key-Runs env at m (seen_now env at m (into_inbox env at m (received env at m t) b)) in
    (b', rw (receive_text, start_of_id m.author_pub, e) refl, learn_key_inbox env at m _ b' e)

by_text :
    (env : Env) (at : Moment) (m : Message) (t : Bytes) (b : Api)
    → m.content_type ≡ content_text
    → receive_content env at m t b ≡ receive_text env at m t b
unfolding receive_content
by_text env at m t b e = rw (receive_content, e) refl

entry_of :
    (env : Env) (at : Moment) (m : Message) (t : Bytes) (b : Api) (author : Bytes) (time : ℕ)
    → m.author_pub ≡ author
    → m.timestamp ≡ time
    → (into_inbox env at m (received env at m t) b).inbox
      ≡ add_inbox env.sort_inbox at.world.now
          (user_id author)
          (record {
            id = hex m.id;
            from = user_id author;
            from_pub = to_base58 author;
            text = t;
            timestamp = time;
            status = codes "delivered";
            outgoing = false;
            msg_type = [];
            subject = [];
          })
          b.inbox
unfolding into_inbox received
entry_of env at m t b author time e e' = rw (e, e') refl

by_confirm :
    (env : Env) (at : Moment) (m : Message) (t : Bytes) (a : Api)
    → m.content_type ≡ content_delivery_confirm
    → length t ≡ 32
    → receive_content env at m t a
      ≡ some
          (record a { inbox = mark_delivered (hex t) a.inbox; hold = delete at.disk a.hold t }, [])
unfolding receive_content receive_confirm
by_confirm env at m t a e l = rw (receive_content, e, receive_confirm, l) refl

-- The transports that get a message.
abbrev pub handed : Links → Message → List Sent
handed links m =
    (if links.has_transport then by_lan m ∷ [] else [])
    ++ (if links.relay_connected
        then (if links.relay_sends then by_relay m ∷ [] else [])
        else if links.dns_connected && links.dns_sends
        then by_dns m ∷ []
        else [])

transmit-handed : (links : Links) (m : Message) → (transmit links m).0 ≡ handed links m
unfolding transmit lan_send relay_send
transmit-handed links m = elim (Bool-cases links.relay_connected) [
  | inl e ↦ rw (transmit, relay_send, lan_send, e) refl
  | inr e ↦ elim (Bool-cases links.dns_connected) [
    | inl q ↦ rw (transmit, lan_send, e, q) refl
    | inr q ↦ rw (transmit, lan_send, e, q, append-nil) refl
  ]
]

module _ (env : Env) (laws : Laws env.primitives) (flate_laws : FlateLaws env.flate) where
  -- A text that is sent to a contact whose keys are those of another node passes the checks of every
  -- node and is handed to each transport that is up, to the DNS tunnel only where there is no relay.
  -- The other node, when it has the message, finds it in its inbox under the sender's user id, with
  -- the text, the identifier and the time of the message, unless it had one with this identifier
  -- there; it finds every other message as before, and answers with a delivery confirmation. The
  -- sender must be able to send, the clock must not be at 0, sort.Slice must sort, and the other
  -- node has no two messages of one identifier from the sender.
  pub handle_incoming-handle_messages :
      (at at' : Moment) (a b : Api) (uid text : Bytes) (contact : Contact) (to : RecipientKeys)
      → (uid =? []) ≡ false
      → get_by_user_id uid a.contacts ≡ some contact
      → recipient_keys contact ≡ some to
      → to.ed25519_pub ≡ b.keypair.ed25519_pub
      → CanSend env at 0 a.keypair to content_text text b.keypair.x25519_private
      → (at.world.now == 0) ≡ false
      → Sorts inbox_kind env.sort_inbox
      → OwnIds (λ x. x.id) (history (user_id a.keypair.ed25519_pub) b.inbox)
      → (m : Message) × (b' : Api) × (let (a', sends, reply) =
            handle_messages env at uid (some text) a in
          sends ≡ handed at.links m)
        × IsAuthentic env.primitives m
        × (handle_incoming env at' m b ≡ some (b', send_delivery_confirm env at' m b'))
        × ((j k : Bytes)
            → find (λ x. x.id) k (history j b'.inbox) ≡ (
                if user_id a.keypair.ed25519_pub =? j && hex m.id =? k
                then kept_or
                    (record {
                      id = hex m.id;
                      from = user_id a.keypair.ed25519_pub;
                      from_pub = to_base58 a.keypair.ed25519_pub;
                      text = text;
                      timestamp = at.world.now;
                      status = codes "delivered";
                      outgoing = false;
                      msg_type = [];
                      subject = [];
                    })
                    (find (λ x. x.id) k (history j b.inbox))
                else find (λ x. x.id) k (history j b.inbox)))
  unfolding handle_messages to_contact dispatch add_inbox
  handle_incoming-handle_messages at at' a b uid text contact to named known keys mine can timed
        sorts own =
      let (m, made, authentic, header, handled) =
        handle_incoming-create_message env laws flate_laws at at' 0 content_text a.keypair to text b
          can mine (omega arith) in
      let (b', received', inbox) = receive_text_effect env at' m text b in
      let entered =
        inbox
        ∙ entry_of env at' m text b a.keypair.ed25519_pub at.world.now header.author_pub
            header.timestamp in
      (
        m,
        b',
        rw (handle_messages, named, to_contact, known, keys, made) (transmit-handed at.links m),
        authentic,
        handled ∙ by_text env at' m text b header.content_type ∙ received',
        λ j k.
            ap (λ x. find (λ (y : InboxMessage). y.id) k (history j x)) entered
            ∙ find-add_message inbox_kind env.sort_inbox sorts at'.world.now
                (user_id a.keypair.ed25519_pub) j k _ b.inbox own timed,
      )

  -- A delivery confirmation reaches the author of the message: of the messages in his inbox the one
  -- with the confirmed identifier becomes "delivered", every other keeps its status, and the hold
  -- has the confirmed message no longer. The recipient must know the author's X25519 key and be
  -- able to send, and the identifier must have 32 bytes.
  pub handle_incoming-send_delivery_confirm :
      (at at' : Moment) (a b : Api) (m : Message)
      → CanSend env at 0 b.keypair
          (confirm_keys env at m b)
          content_delivery_confirm
          m.id
          a.keypair.x25519_private
      → m.author_pub ≡ a.keypair.ed25519_pub
      → length m.id ≡ 32
      → (c : Message) × (a' : Api) × (send_delivery_confirm env at m b
          ≡ relay_send at.links c ++ lan_send at.links c)
        × (handle_incoming env at' c a ≡ some (a', []))
        × ((j : Bytes)
            → find_message j a'.inbox ≡ (
                if hex m.id =? j
                then delivered_too (find_message j a.inbox)
                else find_message j a.inbox))
        × (has a'.hold m.id ≡ false)
  unfolding send_delivery_confirm confirm_keys
  handle_incoming-send_delivery_confirm at at' a b m can mine size =
      let (c, made, authentic, header, handled) =
        handle_incoming-create_message env laws flate_laws at at' 0 content_delivery_confirm
          b.keypair (confirm_keys env at m b) m.id a can mine (omega arith) in
      (
        c,
        record a { inbox = mark_delivered (hex m.id) a.inbox; hold = delete at'.disk a.hold m.id },
        rw (send_delivery_confirm, made) refl,
        handled ∙ by_confirm env at' c m.id a header.content_type size,
        λ j. find_message-mark_delivered (hex m.id) j a.inbox,
        has-delete at'.disk a.hold m.id,
      )
