-- ===== src/Store/Inbox/Saved.antt =====
-- internal/store/inbox.go: the two files of the inbox, the one at its path and the shadow store.
use iskra.Base.{
  ◌≡◌, ◌∙◌, refl, Bool, true, false, ltb, if◌then◌else◌, Option, some, none, List, [], ◌∷◌, ◌++◌,
  length, All, arith,
}
use iskra.Base.Bytes.{Bytes, IsByte, codes, =?_iff}
use iskra.Base.Dict.{Dict, lookup, insert, lookup-insert, Unique}
use iskra.Crypto.{Primitives, Laws}
use iskra.Security.{encrypt_data, decrypt_data}
use iskra.Security.Vault.{opened}
use iskra.Store.Files.{open_data, seal_data}
use iskra.Store.Inbox.{InboxMessage}

-- The messages, the vault key, and the files: the one at the path, the one it is renamed to where it
-- does not decode, and the shadow store.
pub record Inbox : Type 0 where
  pub messages : Dict (List InboxMessage)
  pub vault_key : Option Bytes
  pub file : Option Bytes
  pub corrupt : Option Bytes
  pub shadow : Option Bytes

-- json.MarshalIndent and json.Unmarshal of the histories.
pub record InboxJson : Type 0 where
  pub encode : Dict (List InboxMessage) → Bytes
  pub decode : Bytes → Option (Dict (List InboxMessage))

-- json.Unmarshal into a map that has entries: it keeps those that are not in the text.
unfoldable pub merge :
    Dict (List InboxMessage) → Dict (List InboxMessage) → Dict (List InboxMessage)
merge [] base = base
merge ((k, ms) ∷ rest) base = merge rest (insert k ms base)

module _ (p : Primitives) (json : InboxJson) where
  -- shadowKey
  unfoldable pub shadow_key : Option Bytes → Bytes
  shadow_key none = p.sha256 (codes "iskra-shadow-v1-default")
  shadow_key (some key) = p.sha256 (key ++ codes "iskra-shadow-v1")

  -- The write to the shadow store, with the nonce that was drawn and whether it can be written.
  unfoldable pub save_shadow : Option Bytes → Bool → Inbox → Inbox
  save_shadow iv writable inbox =
      elim (encrypt_data p iv (json.encode inbox.messages) (shadow_key inbox.vault_key)) [
        | none ↦ inbox
        | some encrypted ↦ if writable then record inbox { shadow = some encrypted } else inbox
      ]

  -- Save; the flag is false for an error.
  unfoldable pub save_inbox : Option Bytes → Bool → Option Bytes → Bool → Inbox → Inbox × Bool
  save_inbox shadow_iv shadow_writable iv writable inbox =
      let saved = save_shadow shadow_iv shadow_writable inbox in
      elim (seal_data p iv inbox.vault_key (json.encode inbox.messages)) [
        | none ↦ (saved, false)
        | some data' ↦
            if writable then (record saved { file = some data' }, true) else (saved, false)
      ]

  -- tryLoad
  unfoldable pub try_load : Inbox → Inbox × Bool
  try_load inbox = elim inbox.file [
    | none ↦ (inbox, false)
    | some data' ↦ elim (json.decode (open_data p b'{' inbox.vault_key data')) [
      | none ↦ (record inbox { messages = []; file = none; corrupt = some data' }, false)
      | some decoded ↦
          let messages = merge decoded inbox.messages in
          (record inbox { messages = messages }, ltb 0 (length messages))
    ]
  ]

  -- tryLoadShadow
  unfoldable pub try_load_shadow : Inbox → Inbox
  try_load_shadow inbox = elim inbox.shadow [
    | none ↦ inbox
    | some data' ↦ elim (decrypt_data p data' (shadow_key inbox.vault_key)) [
      | none ↦ inbox
      | some decrypted ↦ elim (json.decode decrypted) [
        | none ↦ inbox
        | some decoded ↦ record inbox { messages = merge decoded inbox.messages }
      ]
    ]
  ]

  -- Load: the shadow store where the file brings no messages.
  unfoldable pub load_inbox : Inbox → Inbox
  load_inbox inbox =
      let (loaded, found) = try_load inbox in if found then loaded else try_load_shadow loaded

abbrev or_else :
    Option (List InboxMessage) → Option (List InboxMessage) → Option (List InboxMessage)
or_else none b = b
or_else (some a) b = some a

lookup-merge :
    (k : Bytes) (decoded base : Dict (List InboxMessage))
    → Unique decoded
    → lookup k (merge decoded base) ≡ or_else (lookup k decoded) (lookup k base)
unfolding merge lookup
lookup-merge k [] base u = refl
lookup-merge k ((j, ms) ∷ rest) base (fresh, u) =
    lookup-merge k rest (insert j ms base) u ∙ rw lookup-insert (ground (arith, fresh, =?_iff j k))

or_else_empty : (k : Bytes) (o : Option (List InboxMessage)) → or_else o (lookup k []) ≡ o
unfolding lookup
or_else_empty k none = refl
or_else_empty k (some a) = refl

-- What a shadow store holds after Save.
shadow_of :
    (p : Primitives) (json : InboxJson) (iv : Bytes) (inbox : Inbox)
    → (save_shadow p json (some iv) true inbox).shadow
      ≡ some (iv ++ p.seal (json.encode inbox.messages) iv (shadow_key p json inbox.vault_key))
unfolding save_shadow encrypt_data
shadow_of p json iv inbox = refl

-- When the file at the path is gone, a node that starts with the same vault key, set or not, and with
-- the shadow store that Save wrote finds every history again: GetMessages and the rest see for every
-- contact what was saved. The JSON must read back, 24 random bytes must have been drawn, and the
-- shadow store must have been writable.
pub load_inbox-save_shadow :
    (p : Primitives) (laws : Laws p) (json : InboxJson) (iv : Bytes) (inbox : Inbox)
    (corrupt : Option Bytes) (k : Bytes)
    → json.decode (json.encode inbox.messages) ≡ some inbox.messages
    → All IsByte (json.encode inbox.messages)
    → length iv ≡ 24
    → Unique inbox.messages
    → lookup k
        (load_inbox p json (record {
          messages = [];
          vault_key = inbox.vault_key;
          file = none;
          corrupt = corrupt;
          shadow = (save_shadow p json (some iv) true inbox).shadow;
        })).messages
      ≡ lookup k inbox.messages
unfolding load_inbox try_load try_load_shadow
load_inbox-save_shadow p laws json iv inbox corrupt k reads bytes size unique =
    rw
      (
        load_inbox,
        try_load,
        try_load_shadow,
        shadow_of p json iv inbox,
        opened p laws iv (json.encode inbox.messages) (shadow_key p json inbox.vault_key) size
            bytes,
        reads,
      )
      (lookup-merge k inbox.messages [] unique ∙ or_else_empty k (lookup k inbox.messages))
