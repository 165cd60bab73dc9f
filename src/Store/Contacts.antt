-- ===== src/Store/Contacts.antt =====
-- internal/store/contacts.go: the contact list and its file. encoding/json is a parameter; a text that
-- it does not decode leaves the list as it was. The errors that the callers drop are Booleans here.
pub mod Book
pub mod Saved
mod Examples
use iskra.Base.{
  ℕ, zero, suc, ◌+◌, ◌-◌, ◌≤◌, ◌<◌, ◌≡◌, refl, Bool, true, false, not, ◌&&◌, ◌||◌, ◌==◌, ltb,
  if◌then◌else◌, Option, some, none, List, [], ◌∷◌, ◌++◌, length, get_or, take,
}
use iskra.Base.Bytes.{Bytes, codes, zeros, ◌=?◌}
use iskra.Crypto.{Primitives}
use iskra.Identity.{user_id, to_base58, from_base58}
use iskra.Store.Files.{open_data, seal_data}
use iskra.Store.First.{find, modify, drop_first, has_id}

pub record Contact : Type 0 where
  pub name : Bytes
  pub pub_key : Bytes
  pub x25519_pub : Bytes
  pub user_id : Bytes
  pub added_at : ℕ
  pub last_seen : ℕ

-- `file` is the content of the file, `corrupt` of the one it is renamed to.
pub record Contacts : Type 0 where
  pub contacts : List Contact
  pub vault_key : Option Bytes
  pub file : Option Bytes
  pub corrupt : Option Bytes

-- json.MarshalIndent and json.Unmarshal of the list.
pub record Json : Type 0 where
  pub encode : List Contact → Bytes
  pub decode : Bytes → Option (List Contact)

-- What a call finds outside: the random nonce, whether the file can be written, and the time.
pub record World : Type 0 where
  pub iv : Option Bytes
  pub writable : Bool
  pub now : ℕ

-- An entry of the format that Import reads.
pub record Imported : Type 0 where
  pub name : Bytes
  pub public_key : Bytes
  pub x25519_key : Bytes

abbrev pub id_of : Contact → Bytes
id_of c = c.user_id

-- GetByUserID
unfoldable pub get_by_user_id : Bytes → Contacts → Option Contact
get_by_user_id uid c = find id_of uid c.contacts

module _ (p : Primitives) (json : Json) where
  -- load
  unfoldable pub load : Contacts → Contacts × Bool
  load c = elim c.file [
    | none ↦ (c, false)
    | some data' ↦ elim (json.decode (open_data p b'[' c.vault_key data')) [
      | none ↦ (c, false)
      | some cs ↦ (record c { contacts = cs }, true)
    ]
  ]

  -- save
  unfoldable pub save : World → Contacts → Contacts × Bool
  save w c = elim (seal_data p w.iv c.vault_key (json.encode c.contacts)) [
    | none ↦ (c, false)
    | some data' ↦ if w.writable then (record c { file = some data' }, true) else (c, false)
  ]

  -- NewContacts, of the file that is there, with no key yet.
  unfoldable pub looks_encrypted : Bytes → Bool
  looks_encrypted data' =
      ltb 0 (length data') && (not (get_or data' 0 0 == b'[') && not (get_or data' 0 0 == b'{'))

  unfoldable pub new_contacts : Option Bytes → Contacts
  new_contacts none = record { contacts = []; vault_key = none; file = none; corrupt = none }
  new_contacts (some data') =
      let fresh : Contacts = record {
        contacts = [];
        vault_key = none;
        file = some data';
        corrupt = none;
      } in
      let (loaded, ok) = load fresh in
      if ok
      then loaded
      else if looks_encrypted data'
      then fresh
      else record fresh { file = none; corrupt = some data' }

  -- SetVaultKey
  unfoldable pub set_vault_key : World → Option Bytes → Contacts → Contacts
  set_vault_key w key c = (save w (load (record c { vault_key = key })).0).0

  -- Add
  unfoldable pub add : World → Bytes → Bytes → Bytes → Contacts → Contacts
  add w name ed_pub x25519_pub c =
      let uid = user_id ed_pub in
      if has_id id_of uid c.contacts
      then c
      else (save w (record c {
        contacts =
            c.contacts
            ++ record {
              name = name;
              pub_key = to_base58 ed_pub;
              x25519_pub = to_base58 x25519_pub;
              user_id = uid;
              added_at = w.now;
              last_seen = 0;
            }
              ∷ [];
      })).0

  -- Rename
  unfoldable pub rename : World → Bytes → Bytes → Contacts → Contacts × Bool
  rename w uid new_name c =
      if has_id id_of uid c.contacts
      then (
        (save w (record c {
          contacts = modify id_of uid (λ ct. record ct { name = new_name }) c.contacts;
        })).0,
        true,
      )
      else (c, false)

  -- Delete
  unfoldable pub delete : World → Bytes → Contacts → Contacts × Bool
  delete w uid c =
      if has_id id_of uid c.contacts
      then ((save w (record c { contacts = drop_first id_of uid c.contacts })).0, true)
      else (c, false)

  -- UpdateLastSeen
  unfoldable pub update_last_seen : World → Bytes → ℕ → Contacts → Contacts
  update_last_seen w uid timestamp c =
      if has_id id_of uid c.contacts
      then (save w (record c {
        contacts = modify id_of uid (λ ct. record ct { last_seen = timestamp }) c.contacts;
      })).0
      else c

  -- UpdateX25519; `none` is the panic of `userID[:12]` on a short text.
  unfoldable pub update_x25519 : World → Bytes → Bytes → Contacts → Option Contacts
  update_x25519 w uid x25519 c = elim (find id_of uid c.contacts) [
    | some ct ↦
        if ct.x25519_pub =? [] || not (ct.x25519_pub =? x25519)
        then some
            (save w (record c {
              contacts = modify id_of uid (λ o. record o { x25519_pub = x25519 }) c.contacts;
            })).0
        else some c
    | none ↦
        if ltb (length uid) 12
        then none
        else some
            (save w (record c {
              contacts =
                  c.contacts
                  ++ record {
                    name = take 12 uid;
                    pub_key = [];
                    x25519_pub = x25519;
                    user_id = uid;
                    added_at = w.now;
                    last_seen = w.now;
                  }
                    ∷ [];
            })).0
  ]

-- The key of 32 bytes that a text stands for.
unfoldable pub key_of : Bytes → Option Bytes
key_of text = elim (from_base58 text) [
  | none ↦ none
  | some bs ↦ if length bs == 32 then some bs else none
]

unfoldable pub x25519_of : Bytes → Bytes
x25519_of text = elim (key_of text) [
  | none ↦ zeros 32
  | some bs ↦ if text =? [] then zeros 32 else bs
]

-- The loop of Import
unfoldable pub import_loop : ℕ → List Imported → List Contact → List Contact
import_loop now [] cs = cs
import_loop now (imp ∷ imps) cs = elim (key_of imp.public_key) [
  | none ↦ import_loop now imps cs
  | some ed_pub ↦
      let new : Contact = record {
        name = imp.name;
        pub_key = imp.public_key;
        x25519_pub = to_base58 (x25519_of imp.x25519_key);
        user_id = user_id ed_pub;
        added_at = now;
        last_seen = 0;
      } in
      import_loop now imps (if has_id id_of new.user_id cs then cs else cs ++ new ∷ [])
]

-- Import, of the entries in the file; the flag is the error of save.
unfoldable pub import_contacts :
    Primitives → Json → World → List Imported → Contacts → Contacts × Bool
import_contacts p json w imps c =
    save p json w (record c { contacts = import_loop w.now imps c.contacts })
