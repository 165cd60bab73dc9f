-- ===== src/Web/SendFile.antt =====
-- internal/web/api.go: HandleSendFile. `none` is a panic; the upload is the client's name of the file
-- and its content, `none` where the form has no file.
use iskra.Base.{
  ℕ, suc, ◌+◌, Bool, true, if◌then◌else◌, Option, some, none, ◌>>=◌, List, [], ◌∷◌, ◌++◌,
}
use iskra.Base.Bytes.{Bytes, codes, ◌=?◌}
use iskra.FileTransfer.{prepare_chunks}
use iskra.Identity.{user_id}
use iskra.Message.{content_file_chunk}
use iskra.Message.Create.{RecipientKeys}
use iskra.Store.Bloom.{add}
use iskra.Store.Contacts.{Contact, get_by_user_id, key_of, x25519_of}
use iskra.Store.Hold.{store_with_ttl}
use iskra.Store.Inbox.{InboxMessage}
use iskra.Web.{Env, Moment, Api, Sent, prefix, create_message, lan_send, relay_send}
use iskra.Web.Send.{keep_entry}

-- filetransfer.ChunkHopTTL
abbrev pub chunk_hop_ttl : ℕ
chunk_hop_ttl = 5

-- The reply of HandleSendFile: an HTTP error, or the number of chunks that were sent.
pub data FileReply : Type 0 where
  file_error : ℕ → FileReply
  file_sent : ℕ → FileReply

unfoldable pub file_keys : Contact → Option RecipientKeys
file_keys contact = elim (key_of contact.pub_key) [
  | none ↦ none
  | some ed_pub ↦ some (record { ed25519_pub = ed_pub; x25519_pub = x25519_of contact.x25519_pub })
]

module _ (env : Env) (at : Moment) where
  -- The loop over the chunks, the draw `i` for the first; a chunk whose message cannot be made is left
  -- out. The number is that of the chunks sent.
  unfoldable pub send_chunks : RecipientKeys → ℕ → List Bytes → Api → Api × List Sent × ℕ
  send_chunks to i [] a = (a, [], 0)
  send_chunks to i (payload ∷ payloads) a =
      elim (create_message env at i a.keypair to content_file_chunk payload) [
        | none ↦ send_chunks to (i + 1) payloads a
        | some m ↦
            let a1 : Api = record a {
              bloom = add env.primitives m.id a.bloom;
              hold = (store_with_ttl at.disk at.world.now a.hold m chunk_hop_ttl).0;
            } in
            let (a2, later, n) = send_chunks to (i + 1) payloads a1 in
            (a2, relay_send at.links m ++ (lan_send at.links m ++ later), suc n)
      ]

  -- The inbox entry of a file that was sent.
  unfoldable pub file_entry : Bytes → ℕ → Api → InboxMessage
  file_entry filename n a = record {
    id = codes "file-" ++ env.decimal at.nanos;
    from = user_id a.keypair.ed25519_pub;
    from_pub = [];
    text = codes "[File: " ++ (filename ++ (codes "] (" ++ (env.decimal n ++ codes " chunks)")));
    timestamp = at.world.now;
    status = codes "sent";
    outgoing = true;
    msg_type = [];
    subject = [];
  }

  unfoldable pub send_to :
      Bytes → Bytes → RecipientKeys → List Bytes → Api → Option (Api × List Sent × FileReply)
  send_to uid filename to payloads a = do
    let (a1, sent, n) = send_chunks to 0 payloads a
    let a2 = keep_entry env at uid (file_entry filename n a1) a1
    logged ← prefix 8 uid
    some (a2, sent, file_sent n)

  -- HandleSendFile. The file is saved under the base of its name first; `saves` says whether that works,
  -- and `transfer_id` is drawn for the transfer.
  unfoldable pub handle_send_file :
      Bool → Bytes → Bytes → Option (Bytes × Bytes) → Api → Option (Api × List Sent × FileReply)
  handle_send_file saves transfer_id uid upload a =
      if uid =? [] then some (a, [], file_error 400) else (elim upload [
        | none ↦ some (a, [], file_error 400)
        | some (filename, content) ↦
            if saves
            then (elim (prepare_chunks env.packages transfer_id (env.packages.base filename)
                content) [
                  | none ↦ some (a, [], file_error 400)
                  | some payloads ↦ elim (get_by_user_id uid a.contacts) [
                    | none ↦ some (a, [], file_error 404)
                    | some contact ↦ elim (file_keys contact) [
                      | none ↦ some (a, [], file_error 400)
                      | some to ↦ send_to uid filename to payloads a
                    ]
                  ]
                ])
            else some (a, [], file_error 500)
      ])
