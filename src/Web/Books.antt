-- ===== src/Web/Books.antt =====
-- internal/web/api.go: the handlers of contacts and chats. A request that does not parse is `none`.
use iskra.Base.{ℕ, suc, ◌+◌, ◌||◌, ◌==◌, ltb, if◌then◌else◌, Option, some, none, List, [], ◌∷◌}
use iskra.Base.Bytes.{Bytes, codes, ◌=?◌}
use iskra.Store.Contacts.{World, Imported, key_of, x25519_of, add, rename}
use iskra.Store.Inbox.{delete_chat}
use iskra.Web.{Env, Links, Api}

module _ (env : Env) where
  -- A contact of a request: its name and its two keys in Base58; `none` where the key is none.
  unfoldable pub add_entry : World → Imported → Api → Option Api
  add_entry w imp a = elim (key_of imp.public_key) [
    | none ↦ none
    | some ed_pub ↦ some (record a {
      contacts =
          add env.primitives env.contacts_json w imp.name ed_pub (x25519_of imp.x25519_key)
            a.contacts;
    })
  ]

  -- HandleContacts, POST: the HTTP status.
  unfoldable pub handle_contacts : World → Option Imported → Api → Api × ℕ
  handle_contacts w none a = (a, 400)
  handle_contacts w (some imp) a = elim (add_entry w imp a) [
    | none ↦ (a, 400)
    | some a1 ↦ (a1, 201)
  ]

  -- The loop of HandleImport, where each entry finds its own world, and the number imported.
  unfoldable pub import_entries : (ℕ → World) → ℕ → List Imported → Api → Api × ℕ
  import_entries worlds i [] a = (a, 0)
  import_entries worlds i (imp ∷ imps) a = elim (add_entry (worlds i) imp a) [
    | none ↦ import_entries worlds (i + 1) imps a
    | some a1 ↦ let (a2, n) = import_entries worlds (i + 1) imps a1 in (a2, suc n)
  ]

  -- HandleImport; `none` for the body is one that is no JSON array.
  unfoldable pub handle_import : (ℕ → World) → Option (List Imported) → Api → Api × Option ℕ
  handle_import worlds none a = (a, none)
  handle_import worlds (some imps) a = let (a1, n) = import_entries worlds 0 imps a in (a1, some n)

  -- HandleRenameContact: the HTTP status.
  unfoldable pub handle_rename : World → Bytes → Option Bytes → Api → Api × ℕ
  handle_rename w uid none a = (a, 400)
  handle_rename w uid (some name) a =
      if uid =? [] || name =? []
      then (a, 400)
      else (let (contacts, found) = rename env.primitives env.contacts_json w uid name a.contacts in
          (record a { contacts = contacts }, if found then 200 else 404))

-- HandleDeleteChat
unfoldable pub handle_delete_chat : Bytes → Api → Api × ℕ
handle_delete_chat uid a =
    if uid =? [] then (a, 400) else (record a { inbox = delete_chat uid a.inbox }, 200)

-- HandleStatus: the mode.
unfoldable pub mode_of : Links → Bytes
mode_of links =
    if links.relay_connected
    then codes "solntse"
    else if links.dns_connected
    then codes "inferno"
    else if ltb 0 links.peer_count
    then codes "lan"
    else codes "offline"

-- HandleAddPeer: the port that is dialled; `own` is the port of the transport, if there is one.
unfoldable pub own_port : Option ℕ → ℕ
own_port none = 0
own_port (some port) = port

unfoldable pub peer_port : Option ℕ → ℕ → ℕ
peer_port own asked =
    let port = if asked == 0 then own_port own else asked in if port == 0 then 4243 else port
