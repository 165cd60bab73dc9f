-- ===== src/Web/Incoming.antt =====
-- internal/web/api.go: HandleIncomingMessage and sendDeliveryConfirm. `none` is a panic: the slices of
-- texts that the handler logs are taken as the code takes them.
pub mod Survives
pub mod Opened
use iskra.Base.{
  ℕ, Bool, true, false, not, ◌&&◌, ◌==◌, ltb, if◌then◌else◌, Option, some, none, ◌>>=◌, List, [],
  ◌∷◌, ◌++◌, length, take,
}
use iskra.Base.Bytes.{Bytes, codes, ◌=?◌, zeros}
use iskra.Base.Hex.{hex}
use iskra.Crypto.Encrypt.{decrypt}
use iskra.FileTransfer.{Manager, receive_chunk}
use iskra.Identity.{user_id, to_base58}
use iskra.Message.{
  Message, content_text, content_delivery_confirm, content_group_text, content_group_invite,
  content_channel_post, content_file_chunk, content_letter,
}
use iskra.Message.Create.{Keypair, RecipientKeys, decompress_payload}
use iskra.Message.Sign.{is_for_recipient, is_broadcast, verify_signature}
use iskra.Store.Channels.{Channels, get_channel, subscribe, add_channel_post, save_channels}
use iskra.Store.Contacts.{Contacts, get_by_user_id, update_last_seen, update_x25519, x25519_of}
use iskra.Store.First.{find}
use iskra.Store.Groups.{Groups, get_group, add_group_message, add_by_invite, save_groups}
use iskra.Store.Hold.{delete}
use iskra.Store.Inbox.{InboxMessage, add_inbox, mark_delivered}
use iskra.Web.{Env, Moment, Links, Api, Sent, prefix, create_message, lan_send, relay_send}
use iskra.Web.Posts.{receive_broadcast}
use iskra.Web.GroupTexts.{receive_group_text, receive_invite}

module _ (env : Env) (at : Moment) where
  -- The keys of a message's author: the X25519 key is that of the contact, zero without one.
  unfoldable pub confirm_keys : Message → Api → RecipientKeys
  confirm_keys orig a = record {
    ed25519_pub = orig.author_pub;
    x25519_pub = elim (get_by_user_id (user_id orig.author_pub) a.contacts) [
      | none ↦ zeros 32
      | some contact ↦ x25519_of contact.x25519_pub
    ];
  }

  -- sendDeliveryConfirm, with the first draw of the moment.
  unfoldable pub send_delivery_confirm : Message → Api → List Sent
  send_delivery_confirm orig a =
      elim (create_message env at 0 a.keypair (confirm_keys orig a) content_delivery_confirm
        orig.id) [
          | none ↦ []
          | some confirm ↦ relay_send at.links confirm ++ lan_send at.links confirm
        ]

  -- The inbox entry of a message that arrived.
  unfoldable pub received : Message → Bytes → InboxMessage
  received m text = record {
    id = hex m.id;
    from = user_id m.author_pub;
    from_pub = to_base58 m.author_pub;
    text = text;
    timestamp = m.timestamp;
    status = codes "delivered";
    outgoing = false;
    msg_type = [];
    subject = [];
  }

  unfoldable pub into_inbox : Message → InboxMessage → Api → Api
  into_inbox m entry a = record a {
    inbox = add_inbox env.sort_inbox at.world.now (user_id m.author_pub) entry a.inbox;
  }

  unfoldable pub seen_now : Message → Api → Api
  seen_now m a = record a {
    contacts =
        update_last_seen env.primitives env.contacts_json at.world (user_id m.author_pub)
          at.world.now a.contacts;
  }

  -- The sender's X25519 key is learnt from the message.
  unfoldable pub learn_key : Message → Api → Option Api
  learn_key m a =
      if m.author_x25519 =? zeros 32
      then some a
      else (elim (update_x25519 env.primitives env.contacts_json at.world (user_id m.author_pub)
          (to_base58 m.author_x25519) a.contacts) [
            | none ↦ none
            | some contacts ↦ some (record a { contacts = contacts })
          ])

  unfoldable pub receive_text : Message → Bytes → Api → Option (Api × List Sent)
  receive_text m plaintext a = do
    logged ← prefix 8 (user_id m.author_pub)
    a1 ← learn_key m (seen_now m (into_inbox m (received m plaintext) a))
    some (a1, send_delivery_confirm m a1)

  unfoldable pub receive_confirm : Bytes → Api → Api
  receive_confirm plaintext a =
      if length plaintext == 32
      then record a {
        inbox = mark_delivered (hex plaintext) a.inbox;
        hold = delete at.disk a.hold plaintext;
      }
      else a

  -- The step of a group handler, where there are groups.
  unfoldable pub on_groups : (Groups → Option Groups) → Api → Option (Api × List Sent)
  on_groups f a = elim a.groups [
    | none ↦ some (a, [])
    | some groups ↦ elim (f groups) [
      | none ↦ none
      | some groups' ↦ some (record a { groups = some groups' }, [])
    ]
  ]

  -- The subject and body of a letter; a text that is not one is a body.
  unfoldable pub letter_parts : Bytes → Bytes × Bytes
  letter_parts plaintext = elim (env.read_letter plaintext) [
    | none ↦ ([], plaintext)
    | some parts ↦ parts
  ]

  unfoldable pub receive_letter : Message → Bytes → Api → Option (Api × List Sent)
  receive_letter m plaintext a = do
    logged ← prefix 8 (user_id m.author_pub)
    let (subject, body) = letter_parts plaintext
    let entry : InboxMessage = record (received m body) {
      msg_type = codes "letter";
      subject = subject;
    }
    let a1 = seen_now m (into_inbox m entry a)
    some (a1, send_delivery_confirm m a1)

  -- A complete file is announced in the inbox. The name is that of filepath.Base.
  unfoldable pub file_entry : Message → Bytes → InboxMessage
  file_entry m name =
      record (received m (codes "[File received: " ++ env.packages.base name ++ codes "]")) {
        from_pub = [];
      }

  -- What a complete file leaves in the inbox.
  unfoldable pub announce_file : Message → Option (Bytes × Bytes) → Api → Option Api
  announce_file m none a = some a
  announce_file m (some (name, content)) a = do
    logged ← prefix 8 (user_id m.author_pub)
    some (seen_now m (into_inbox m (file_entry m name) a))

  unfoldable pub receive_file : Message → Bytes → Manager → Api → Option Api
  receive_file m plaintext mgr a = do
    (mgr1, file) ← receive_chunk env.packages at.writes at.nanos plaintext mgr
    announce_file m file (record a { file_mgr = some mgr1 })

  unfoldable pub receive_file_chunk : Message → Bytes → Api → Option (Api × List Sent)
  receive_file_chunk m plaintext a = elim a.file_mgr [
    | none ↦ some (a, [])
    | some mgr ↦ elim (receive_file m plaintext mgr a) [ none ↦ none | some a1 ↦ some (a1, []) ]
  ]

  -- The switch on the content type.
  unfoldable pub receive_content : Message → Bytes → Api → Option (Api × List Sent)
  receive_content m plaintext a =
      if m.content_type == content_text
      then receive_text m plaintext a
      else if m.content_type == content_delivery_confirm
      then some (receive_confirm plaintext a, [])
      else if m.content_type == content_group_text
      then on_groups (λ groups. receive_group_text env at m plaintext groups a) a
      else if m.content_type == content_group_invite
      then on_groups (λ groups. receive_invite env at plaintext groups) a
      else if m.content_type == content_letter
      then receive_letter m plaintext a
      else if m.content_type == content_file_chunk
      then receive_file_chunk m plaintext a
      else some (a, [])

  -- A message for this node: decrypted, and decompressed where that works.
  unfoldable pub raw_or : Bytes → Option Bytes → Bytes
  raw_or compressed none = compressed
  raw_or compressed (some plaintext) = plaintext

  -- What follows the switch, for a message of any recipient.
  unfoldable pub then_broadcast : Message → Api × List Sent → Option (Api × List Sent)
  then_broadcast m (a, sent) = do a1 ← receive_broadcast env at m a; some (a1, sent)

  -- The rest of the handler, of what Decrypt returned: without it the handler ends.
  unfoldable pub receive_opened : Message → Api → Option Bytes → Option (Api × List Sent)
  receive_opened m a none = some (a, [])
  receive_opened m a (some compressed) = do
    handled ← receive_content m (raw_or compressed (decompress_payload env.flate compressed)) a
    then_broadcast m handled

  -- HandleIncomingMessage
  unfoldable pub handle_incoming : Message → Api → Option (Api × List Sent)
  handle_incoming m a =
      if is_for_recipient m a.keypair.ed25519_pub
      then receive_opened m a (
          decrypt env.primitives a.keypair.x25519_private
            (record { ephemeral_pub = m.ephemeral_pub; nonce = m.nonce; ciphertext = m.payload }))
      else then_broadcast m (a, [])
