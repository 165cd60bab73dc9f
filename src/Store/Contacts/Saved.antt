-- ===== src/Store/Contacts/Saved.antt =====
-- internal/store/contacts.go: what a restart finds of a saved list.
use iskra.Base.{
  ℕ, ◌≡◌, ◌≢◌, ◌∙◌, refl, true, ◌||◌, ◌==◌, if◌then◌else◌, some, none, [], ◌∷◌, ◌++◌, length,
  get_or, arith, All,
}
use iskra.Base.Bytes.{Bytes, IsByte}
use iskra.Crypto.{Primitives, Laws}
use iskra.Security.{encrypt_data}
use iskra.Store.Files.{open_data, seal_data, open_data-seal_data}
use iskra.Store.Contacts.{Contacts, Json, load, save, new_contacts, looks_encrypted}

module _ (p : Primitives) (json : Json) where
  save-file :
      (iv key : Bytes) (now : ℕ) (c : Contacts)
      → c.vault_key ≡ some key
      → (save p json (record { iv = some iv; writable = true; now = now }) c).0.file
        ≡ some (iv ++ p.seal (json.encode c.contacts) iv key)
  unfolding save seal_data encrypt_data
  save-file iv key now c k = rw (save, k, seal_data) refl

  -- A list that was saved under a vault key, with a nonce that does not start with `[`, is what a
  -- restart loads under that key, whatever it held before, if JSON decodes what it encodes.
  pub load-save :
      (laws : Laws p) (iv key : Bytes) (now : ℕ) (c d : Contacts)
      → c.vault_key ≡ some key
      → d.vault_key ≡ some key
      → d.file ≡ (save p json (record { iv = some iv; writable = true; now = now }) c).0.file
      → json.decode (json.encode c.contacts) ≡ some c.contacts
      → All IsByte (json.encode c.contacts)
      → length iv ≡ 24
      → get_or iv 0 0 ≢ b'['
      → ((load p json d).0.contacts ≡ c.contacts) × ((load p json d).1 ≡ true)
  unfolding load
  load-save laws iv key now c d kc kd file decodes bytes n mark =
      rw (load, file ∙ save-file iv key now c kc, kd, opens, decodes) (refl, refl)
    where
      opens :
          open_data p b'[' (some key) (iv ++ p.seal (json.encode c.contacts) iv key)
          ≡ json.encode c.contacts
      opens =
          open_data-seal_data p laws b'[' iv key (json.encode c.contacts) n bytes
          ∙ ground (arith, mark)

  -- A start without the PIN keeps a saved vault file that is not JSON, unless its nonce starts with
  -- `[` or `{`: then the file is put aside as corrupt, and the list starts empty.
  pub new_contacts-save :
      (iv key : Bytes) (now : ℕ) (c : Contacts)
      → c.vault_key ≡ some key
      → length iv ≡ 24
      → json.decode (iv ++ p.seal (json.encode c.contacts) iv key) ≡ none
      → let saved = iv ++ p.seal (json.encode c.contacts) iv key in
        new_contacts p json
          (save p json (record { iv = some iv; writable = true; now = now }) c).0.file
        ≡ (if get_or iv 0 0 == b'[' || get_or iv 0 0 == b'{'
            then record { contacts = []; vault_key = none; file = none; corrupt = some saved }
            else record { contacts = []; vault_key = none; file = some saved; corrupt = none })
  unfolding new_contacts load looks_encrypted open_data
  new_contacts-save [] key now c k n garbage = cc
  new_contacts-save (b ∷ iv) key now c k n garbage =
      rw (save-file (b ∷ iv) key now c k, new_contacts, load, garbage, looks_encrypted)
        (ground arith)
